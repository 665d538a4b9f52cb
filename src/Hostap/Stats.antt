-- ===== src/Hostap/Stats.antt =====
-- pkg/hostap/stats.go: the gauge of authenticated supplicants and the counter of failures, for each
-- interface. A vector's entry begins at 0.
use eapol_operator.Base.{ℕ, zero, suc, ◌+◌, Str, Option, none, some, bytes_eq}
use eapol_operator.Base.Dict
use eapol_operator.Base.Dict.{Dict}
use eapol_operator.Base.Decimal.{ℤ, pos, negsuc}

pub record Stats : Type 0 where
  pub auth_success : Dict Str ℤ
  pub auth_failed : Dict Str ℕ

abbrev pub or_zero : Option ℤ → ℤ
or_zero none = pos 0
or_zero (some z) = z

abbrev pub count : Option ℕ → ℕ
count none = 0
count (some n) = n

unfoldable pub inc : ℤ → ℤ
inc (pos n) = pos (suc n)
inc (negsuc zero) = pos 0
inc (negsuc (suc n)) = negsuc n

unfoldable pub dec : ℤ → ℤ
dec (pos zero) = negsuc 0
dec (pos (suc n)) = pos n
dec (negsuc n) = negsuc (suc n)

unfoldable pub authenticated : Str → Stats → Stats
unfolding inc
authenticated iface s = record s {
  auth_success =
      Dict.insert iface (inc (or_zero (Dict.lookup iface s.auth_success))) s.auth_success;
}

unfoldable pub de_authenticated : Str → Stats → Stats
unfolding dec
de_authenticated iface s = record s {
  auth_success =
      Dict.insert iface (dec (or_zero (Dict.lookup iface s.auth_success))) s.auth_success;
}

unfoldable pub auth_failed : Str → Stats → Stats
auth_failed iface s = record s {
  auth_failed = Dict.insert iface (count (Dict.lookup iface s.auth_failed) + 1) s.auth_failed;
}
