-- ===== src/Subscription/Response.antt =====
-- internal/subscription/proxmox.go: the document that answers a verify request.
pub mod Escape
use proxmox_license_proxy.Prelude.{Text, bytes, equal, [], ◌∷◌, ◌++◌, ◌==◌, if◌then◌else◌}

abbrev pub shared_key_data : Text
shared_key_data = bytes "kjfdlskfhiuewhfk947368"

pub record Response : Type 0 where
  pub status : Text
  pub server_id : Text
  pub product_name : Text
  pub reg_date : Text
  pub next_due_date : Text
  pub message : Text
  pub check_token : Text

-- The two calls of strings.ReplaceAll in `writeTag`, one after the other.
unfoldable pub replace_ampersands : Text → Text
replace_ampersands [] = []
replace_ampersands (c ∷ s) =
    let rest = replace_ampersands s in if c == b'&' then bytes "&amp;" ++ rest else c ∷ rest

unfoldable pub replace_angles : Text → Text
replace_angles [] = []
replace_angles (c ∷ s) =
    let rest = replace_angles s in if c == b'<' then bytes "&lt;" ++ rest else c ∷ rest

unfoldable pub escape : Text → Text
escape value = replace_angles (replace_ampersands value)

-- <tag>value</tag> and a newline
unfoldable pub write_tag : Text → Text → Text
write_tag tag value =
    bytes "<"
    ++ (tag ++ (bytes ">" ++ (escape value ++ (bytes "</" ++ (tag ++ (bytes ">" ++ bytes "\n"))))))

-- `md5_hex` is hex.EncodeToString of crypto/md5's sum.
module _ (md5_hex : Text → Text) where
  unfoldable pub challenge_hash : Text → Text
  challenge_hash check_token = md5_hex (shared_key_data ++ check_token)

  unfoldable pub render_xml : Response → Text
  render_xml r =
      bytes "<?xml version=\"1.0\" encoding=\"UTF-8\"?>\n"
      ++ (write_tag (bytes "status") r.status
          ++ (write_tag (bytes "validdirectory") r.server_id
              ++ (write_tag (bytes "productname") r.product_name
                  ++ (write_tag (bytes "regdate") r.reg_date
                      ++ (write_tag (bytes "nextduedate") r.next_due_date
                          ++ ((if equal r.message []
                                then []
                                else write_tag (bytes "message") r.message)
                              ++ write_tag (bytes "md5hash") (challenge_hash r.check_token)))))))
