-- ===== src/Client/Messages.antt =====
-- internal/client/acmeclient.go: what a client sends and receives, and the libraries that it calls.
use proxmox_license_proxy.Prelude.{ℕ, Text, Option, List}
use proxmox_license_proxy.Acme.Jws.{Jws}

-- `nonce` is the header Replay-Nonce, which is empty where it is missing; `body` is what
-- io.ReadAll gives.
pub record Response : Type 0 where
  pub code : ℕ
  pub nonce : Text
  pub body : Text

-- `none` is an error of net/http.
pub record Transport (S : Type 0) : Type 0 where
  pub get : Text → S → Option Response × S
  pub post : Text → Text → S → Option Response × S

pub record AccountResult : Type 0 where
  pub thumbprint : Text
  pub server_id : Text
  pub status : Text

pub record IssuedSubscription : Type 0 where
  pub product : Text
  pub key : Text
  pub status : Text
  pub product_name : Text
  pub next_due_date : Text

pub record OrderResult : Type 0 where
  pub server_id : Text
  pub status : Text
  pub subscriptions : List IssuedSubscription
  pub pending : List Text
  pub problems : List (Text × Text)

-- A value of the maps that are sent.

pub data Field : Type 0 where
  text : Text → Field
  texts : List Text → Field

-- encoding/json in the client, where `none` is an error.
pub record ClientJson : Type 0 where
  pub marshal : List (Text × Field) → Option Text
  pub marshal_jws : Jws → Option Text
  pub directory : Text → Option (List (Text × Text))
  pub account_result : Text → Option AccountResult
  pub order_result : Text → Option OrderResult
