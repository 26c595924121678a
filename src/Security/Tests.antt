-- ===== src/Security/Tests.antt =====
-- Runs of the guards, and their theorem at a concrete input.
use dabdub.Prelude.{◌≡◌, ◌≢◌, refl, true, false, some, none, arith, pos}
use dabdub.Security.Addresses.{split, parse_int, has_char}
use dabdub.Security.Guards.{to_int, halves, ip_in_cidr, can_activate}
use dabdub.Security.Metrics.{Network, ip_to_big_int, parse_cidr, contains, new_guard, lets_in}
use dabdub.Security.Laws.{ip_in_cidr-contains}

-- The network of all addresses lets only one in.
all_addresses : can_activate false false "0.0.0.0/0" none (some "10.1.2.3") ≡ false
unfolding can_activate split parse_int has_char to_int halves
all_addresses = refl

-- The other guard lets all in.
all_addresses_metrics : lets_in (new_guard "0.0.0.0/0, ::1") none (some "10.1.2.3") none ≡ true
unfolding new_guard lets_in split parse_int has_char halves
all_addresses_metrics = refl

abbrev ten : Network
ten = record { start = 167772160; end = 184549375 }

ten_network : parse_cidr "10.0.0.0/8" ≡ some ten
unfolding parse_cidr split parse_int halves
ten_network = refl

ten_slash : has_char 47 "10.0.0.0/8" ≡ true
unfolding has_char
ten_slash = refl

ten_bits : parse_int (halves "10.0.0.0/8").1 ≢ some (pos 0)
unfolding parse_int halves split
ten_bits same = ground arith

inside : ip_to_big_int "10.1.2.3" ≡ some 167838211
unfolding ip_to_big_int split parse_int
inside = refl

ip_in_cidr-contains_example : ip_in_cidr "10.1.2.3" "10.0.0.0/8" ≡ contains ten 167838211
ip_in_cidr-contains_example =
    ip_in_cidr-contains "10.1.2.3" "10.0.0.0/8" ten 167838211 ten_slash ten_bits ten_network inside
