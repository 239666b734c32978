-- ===== src/Http/Client/Tallies.antt =====
-- How the results of an order are told.
use proxmox_license_proxy.Prelude.{
  ◌+◌, Text, bytes, ◌⊎◌, Bool-cases, Bool, true, false, List, [], ◌∷◌, length, all, ◌≡◌, ◌≢◌, ◌↔◌,
  inl, inr, refl, sym, ◌∙◌, arith, ◌&&◌, not, ltb,
}
use proxmox_license_proxy.Result.{Error, Result, ok, err, account_not_approved}
use proxmox_license_proxy.Subscription.Model.{License}
use proxmox_license_proxy.Http.Server.{SubscriptionDto}
use proxmox_license_proxy.Http.Client.{Tally, dto_of, is_pending, tally, order_status}

abbrev pub is_issued : Text × Result License → Bool
is_issued (product, ok lic) = true
is_issued (product, err e) = false

-- Every product is in one of the three lists.
tally-total :
    (rs : List (Text × Result License))
    → length (tally rs).issued + length (tally rs).pending + length (tally rs).problems ≡ length rs
tally-total [] = refl
tally-total ((product, ok lic) ∷ rs) = omega (arith, tally-total rs)
tally-total ((product, err e) ∷ rs) = ground (arith, tally-total rs)

tally-issued :
    (rs : List (Text × Result License))
    → (all is_issued rs ≡ true) ↔ (length (tally rs).issued ≡ length rs)
tally-issued [] = ground arith
tally-issued ((product, ok lic) ∷ rs) = ground (arith, tally-issued rs)
tally-issued ((product, err e) ∷ rs) = ground (arith, tally-total rs)

order_status_iff :
    (rs : List (Text × Result License))
    → (order_status (tally rs) ≡ bytes "valid")
      ↔ ((not (ltb (length rs) 1) && all is_issued rs) ≡ true)
unfolding order_status
order_status_iff rs = ground (arith, tally-total rs, tally-issued rs)

order_status-cases :
    (t : Tally) → (order_status t ≡ bytes "valid") ⊎ (order_status t ≡ bytes "pending")
unfolding order_status
order_status-cases t = ground arith

valid-ne-pending : bytes "valid" ≢ bytes "pending"
valid-ne-pending e = absurd (ground (arith, e))

pub status-reads :
    (rs : List (Text × Result License))
    → ltb (length rs) 1 ≡ false
    → ((order_status (tally rs) ≡ bytes "valid") × (all is_issued rs ≡ true))
      ⊎ ((order_status (tally rs) ≡ bytes "pending") × (all is_issued rs ≡ false))
status-reads rs some_result = elim (order_status-cases (tally rs)) [
  | inl valid ↦ inl (valid, ground (arith, (order_status_iff rs).0 valid, some_result))
  | inr waits ↦ elim (Bool-cases (all is_issued rs)) [
    | inr open_one ↦ inr (waits, open_one)
    | inl issued ↦ absurd (
        valid-ne-pending
          (sym ((order_status_iff rs).1 (ground (arith, issued, some_result))) ∙ waits))
  ]
]

-- What a client is told of a license.
pub record Shows (lic : License) (d : SubscriptionDto) : Type 0 where
  pub product : d.product ≡ lic.product
  pub key : d.key ≡ lic.key
  pub status : d.status ≡ lic.status
  pub product_name : d.product_name ≡ lic.product_name
  pub next_due_date : d.next_due_date ≡ lic.next_due_date

-- How the results make up the three lists of a reply, each in the order of the results: a license
-- is shown, a product that waits for the approval of the account is named, and any other error is
-- kept with its product.
pub data Listed
    : List (Text × Result License)
      → List SubscriptionDto
      → List Text
      → List (Text × Error)
      → Type 0 where
  none_left : Listed [] [] [] []
  is_shown :
      {rs : List (Text × Result License)} {ds : List SubscriptionDto} {ps : List Text}
      {es : List (Text × Error)} (product : Text) (lic : License) (d : SubscriptionDto)
      → Shows lic d
      → Listed rs ds ps es
      → Listed ((product, ok lic) ∷ rs) (d ∷ ds) ps es
  is_waiting :
      {rs : List (Text × Result License)} {ds : List SubscriptionDto} {ps : List Text}
      {es : List (Text × Error)} (product : Text)
      → Listed rs ds ps es
      → Listed ((product, err account_not_approved) ∷ rs) ds (product ∷ ps) es
  is_problem :
      {rs : List (Text × Result License)} {ds : List SubscriptionDto} {ps : List Text}
      {es : List (Text × Error)} (product : Text) (e : Error)
      → e ≢ account_not_approved
      → Listed rs ds ps es
      → Listed ((product, err e) ∷ rs) ds ps ((product, e) ∷ es)

is_pending-eq : (e : Error) → is_pending e ≡ true → e ≡ account_not_approved
unfolding is_pending
is_pending-eq account_not_approved h = refl
is_pending-eq _ h = absurd (ground (arith, h))

not_pending : (e : Error) → is_pending e ≡ false → e ≢ account_not_approved
unfolding is_pending
not_pending e h same = absurd (ground (arith, same))

pub tally-Listed :
    (rs : List (Text × Result License))
    → Listed rs (tally rs).issued (tally rs).pending (tally rs).problems
tally-Listed [] = none_left
tally-Listed ((product, ok lic) ∷ rs) =
    is_shown product lic (dto_of lic)
      (record {
        product = refl;
        key = refl;
        status = refl;
        product_name = refl;
        next_due_date = refl;
      })
      (tally-Listed rs)
tally-Listed ((product, err e) ∷ rs) = elim (Bool-cases (is_pending e)) [
  | inl waits ↦ rw (waits, is_pending-eq e waits) (is_waiting product (tally-Listed rs))
  | inr fails ↦ rw fails (is_problem product e (not_pending e fails) (tally-Listed rs))
]
