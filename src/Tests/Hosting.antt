-- ===== src/Tests/Hosting.antt =====
-- The hosts file and the host of a client.
use proxmox_license_proxy.Prelude.{
  Text, bytes, has_prefix, newline, All, some, [], ◌∷◌, ◌++◌, ◌≡◌, refl, arith,
}
use proxmox_license_proxy.Hosts.{enabled, disabled, redirect_ip}
use proxmox_license_proxy.Hosts.Block.{disabled-enabled}
use proxmox_license_proxy.Hosts.Redirect.{IsAddress, words-CanManage, redirect_ip-enabled}
use proxmox_license_proxy.Prelude.Words.{IsWord}

abbrev proxy_ip : Text
proxy_ip = bytes "10.0.0.2"

abbrev shop : Text
shop = bytes "shop.proxmox.com"

abbrev hosts_content : Text
hosts_content = bytes "127.0.0.1 localhost" ++ newline ∷ []

proxy_ip-IsAddress : IsAddress proxy_ip
unfolding has_prefix
proxy_ip-IsAddress = record { word = (ground arith, omega arith); no_comment = refl }

names-All-IsWord : All IsWord (shop ∷ [])
names-All-IsWord = ((ground arith, omega arith), tt)

disabled-enabled_example :
    disabled (enabled proxy_ip (shop ∷ []) hosts_content) ≡ disabled hosts_content
disabled-enabled_example =
    disabled-enabled proxy_ip (shop ∷ [])
      (words-CanManage proxy_ip (shop ∷ []) proxy_ip-IsAddress names-All-IsWord) hosts_content

redirect_ip-enabled_example :
    redirect_ip (enabled proxy_ip (shop ∷ []) hosts_content) ≡ some proxy_ip
redirect_ip-enabled_example =
    redirect_ip-enabled proxy_ip shop [] proxy_ip-IsAddress names-All-IsWord hosts_content
