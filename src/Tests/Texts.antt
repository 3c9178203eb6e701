-- ===== src/Tests/Texts.antt =====
-- The texts of addresses, as tests/test_util.c expects them.
use netscope.Base.{Bytes, [], ◌∷◌, ◌≡◌, refl}
use netscope.Run.{done}
use netscope.Util.Format.{codes, format_mac, format_ipv4, format_ipv6}

mac_text : format_mac (0xaa ∷ 0xbb ∷ 0x0c ∷ 0xdd ∷ 0xee ∷ 0xff ∷ []) 18 ≡ codes "aa:bb:0c:dd:ee:ff"
unfolding format_mac
mac_text = refl

ipv4_text : format_ipv4 (192 ∷ 168 ∷ 1 ∷ 255 ∷ []) 16 ≡ codes "192.168.1.255"
unfolding format_ipv4
ipv4_text = refl

abbrev loopback : Bytes
loopback = 0 ∷ 0 ∷ 0 ∷ 0 ∷ 0 ∷ 0 ∷ 0 ∷ 0 ∷ 0 ∷ 0 ∷ 0 ∷ 0 ∷ 0 ∷ 0 ∷ 0 ∷ 1 ∷ []

loopback_text : format_ipv6 loopback 46 ≡ done (codes "::1")
unfolding format_ipv6
loopback_text = refl

abbrev documentation : Bytes
documentation = 0x20 ∷ 0x01 ∷ 0x0d ∷ 0xb8 ∷ 0 ∷ 0 ∷ 0 ∷ 0 ∷ 0 ∷ 1 ∷ 0 ∷ 0 ∷ 0 ∷ 0 ∷ 0xff ∷ 1 ∷ []

documentation_text : format_ipv6 documentation 46 ≡ done (codes "2001:db8::1:0:0:ff01")
unfolding format_ipv6
documentation_text = refl
