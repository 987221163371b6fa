-- ===== src/Net/Tests.antt =====
-- net/dot2ip.c on a string.
use os_xinu.Prelude.{ℕ, ◌≡◌, some, List, [], ◌∷◌, arith, ◌≤◌}
use os_xinu.Net.{Address, dot2ip}
use os_xinu.Net.Dotted.{IsByte, number, address, dotted, dot2ip_lem}

zero-number : number 0 (48 ∷ []) ≤ 255
unfolding number
zero-number = omega arith

zero-IsByte : IsByte (48 ∷ [])
zero-IsByte = record {
  digits = ((omega arith, omega arith), tt);
  some_digit = omega arith;
  few = omega arith;
  small = zero-number;
}

-- 192.0
abbrev first : List ℕ
first = 49 ∷ 57 ∷ 50 ∷ []

first-number : number 0 first ≤ 255
unfolding number
first-number = omega arith

first-IsByte : IsByte first
first-IsByte = record {
  digits =
      ((omega arith, omega arith), ((omega arith, omega arith), ((omega arith, omega arith), tt)));
  some_digit = omega arith;
  few = omega arith;
  small = first-number;
}

dot2ip_example :
    dot2ip (dotted first ((48 ∷ []) ∷ []) []) ≡ some (Address.ok (address 0 first ((48 ∷ []) ∷ [])))
dot2ip_example = dot2ip_lem first ((48 ∷ []) ∷ []) [] first-IsByte (zero-IsByte, tt)
