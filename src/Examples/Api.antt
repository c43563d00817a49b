-- ===== src/Examples/Api.antt =====
-- The theorems on internal/api/ at concrete headers. An address is a text that begins with a digit.
use moan_subs.Prelude.{◌≡◌, refl, Bool, true, false, [], ◌∷◌, ◌++◌, any}
use moan_subs.Prelude.Text.{Text, codes, text_eq}
use moan_subs.Prelude.Unicode.{is_ascii_digit, trim_space, trim_left, trim_right, is_space}
use moan_subs.Api.ClientIp.{split_commas, client_ip}
use moan_subs.Api.Spoofing.{ends, client_ip-forged}

abbrev numeric : Text → Bool
numeric [] = false
numeric (c ∷ s) = is_ascii_digit c

abbrev proxy : Text → Bool
proxy t = text_eq t (codes "10.0.0.1")

ended : any (ends numeric proxy) (split_commas (codes "203.0.113.9, 10.0.0.1")) ≡ true
unfolding split_commas trim_space trim_left trim_right is_space
ended = refl

client_ip-forged_example :
    client_ip numeric proxy true
      (codes "10.0.0.1")
      (codes "1.2.3.4" ++ b',' ∷ codes "203.0.113.9, 10.0.0.1")
    ≡ client_ip numeric proxy true (codes "10.0.0.1") (codes "203.0.113.9, 10.0.0.1")
client_ip-forged_example =
    client_ip-forged numeric proxy true (codes "10.0.0.1") (codes "1.2.3.4") b'2'
      (codes "03.0.113.9, 10.0.0.1") ended
