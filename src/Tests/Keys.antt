-- ===== src/Tests/Keys.antt =====
-- Keys and the verify response at concrete inputs.
use proxmox_license_proxy.Prelude.{
  bytes, equal, index_byte, trim_space, to_upper, true, [], ◌++◌, ◌≡◌, ◌↔◌, refl,
}
use proxmox_license_proxy.Result.{ok}
use proxmox_license_proxy.Subscription.Status.{revoked, is_valid, parse_status}
use proxmox_license_proxy.Subscription.Key.{
  valid_key, pve, drawn, product_code, product_name, level_name, known_level, valid_sockets,
  hex_encode, hex_digit, generate_key, describe,
}
use proxmox_license_proxy.Subscription.Key.Format.{MatchesKey, valid_key_iff}
use proxmox_license_proxy.Subscription.Key.Reading.{IsGenerated, generate_key-IsGenerated}
use proxmox_license_proxy.Subscription.Response.{write_tag}
use proxmox_license_proxy.Subscription.Response.Escape.{tag_value, tag_value-write_tag}

valid_key_iff_example :
    (valid_key (bytes "pve2c-1ab3f9a2c1") ≡ true) ↔ MatchesKey (bytes "pve2c-1ab3f9a2c1")
valid_key_iff_example = valid_key_iff (bytes "pve2c-1ab3f9a2c1")

generated : generate_key pve [] (bytes "2") (drawn 1 2 3 255) ≡ ok (bytes "pve2c-1ab010203f")
unfolding generate_key product_code known_level level_name valid_sockets hex_encode hex_digit equal
generated = refl

generate_key-IsGenerated_example : IsGenerated pve [] (bytes "2") (bytes "pve2c-1ab010203f")
generate_key-IsGenerated_example =
    generate_key-IsGenerated pve [] (bytes "2") (drawn 1 2 3 255) generated

tag_value-write_tag_example :
    tag_value (bytes "message") (write_tag (bytes "message") (bytes "a<&b") ++ bytes "<x>")
    ≡ bytes "a<&b"
tag_value-write_tag_example = tag_value-write_tag (bytes "message") (bytes "a<&b") (bytes "<x>")

community :
    (describe (bytes "pbsc-0123456789")).product_name
    ≡ bytes "Proxmox Backup Server Community Subscription"
unfolding describe index_byte product_name level_name equal trim_space
community = refl

lower_case : parse_status (bytes " revoked\n") ≡ ok revoked
unfolding parse_status is_valid equal to_upper trim_space
lower_case = refl
