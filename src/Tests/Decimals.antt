-- ===== src/Tests/Decimals.antt =====
-- The parameters of the workflows at concrete functions: decimals as numbers of hundredths, and a
-- text of a cursor that is its own code.
use odoo_mcp.Prelude.{
  ℕ, zero, suc, ◌+◌, ◌*◌, ◌/◌, ℤ, pos, negsuc, pos_part, neg_part, ◌+ℤ◌, ◌-ℤ◌, eqb_ℤ, eqb_ℤ_iff,
  ltb_ℤ, ltb, ◌&&◌, int_laws, String, true, ◌≡◌, refl, some, str_eq, if◌then◌else◌, arith,
}
use odoo_mcp.Workflows.Values.{Decimal, Currency}
use odoo_mcp.Workflows.Reconcile.Scoring.{round_currency_amount}
use odoo_mcp.Workflows.Reconcile.Decisions.Indexed.{IsSymmetric}
use odoo_mcp.Workflows.Reconcile.Best.{IsOrdered}
use odoo_mcp.Workflows.Cursors.{CursorText}
use odoo_mcp.Workflows.Cursors.Walks.{RoundTrips}
use odoo_mcp.Workflows.Cashbook.Sums.{IsExact}

abbrev hundredths_of : String → ℤ
hundredths_of s =
    if str_eq s "0.55"
    then pos 55
    else (if str_eq s "0.20"
        then pos 20
        else (if str_eq s "0.15" then pos 15 else (if str_eq s "0.10" then pos 10 else pos 0)))

abbrev scaled : (ℕ → ℕ) → ℤ → ℤ
scaled f a = pos (f (pos_part a)) -ℤ pos (f (neg_part a))

abbrev pub hundredths : Decimal ℤ
hundredths = record {
  of_text = hundredths_of;
  of_int = λ n. pos (n * 100);
  plus = λ a b. a +ℤ b;
  minus = λ a b. a -ℤ b;
  times = λ a b. scaled (λ n. n * pos_part b / 100) a -ℤ scaled (λ n. n * neg_part b / 100) a;
  over = λ a b. scaled (λ n. n * 100 / pos_part b) a;
  negate = λ a. pos 0 -ℤ a;
  quantizes = λ a. ltb (pos_part a) 100000000 && ltb (neg_part a) 100000000;
  quantize_half_up = scaled (λ n. (n + 50) / 100 * 100);
  eqb = eqb_ℤ;
  ltb = ltb_ℤ;
}

pub hundredths-IsExact : IsExact hundredths
hundredths-IsExact = record {
  zero_plus = λ a. grind int_laws;
  plus_comm = λ a b. grind int_laws;
  plus_assoc = λ a b c. grind int_laws;
  minus_plus = λ a b c d. grind int_laws;
  minus_zero = λ a. grind int_laws;
  eqb_eq = λ a b. (eqb_ℤ_iff a b).0;
}

abbrev digits : ℕ → String
digits zero = ""
digits (suc n) = String.◌∷◌ "1" (digits n)

abbrev count : String → ℕ
count String.[] = 0
count (String.◌∷◌ c s) = suc (count s)

-- Offsets are written in tallies, which a cursor holds as they are.
abbrev pub tallies : CursorText
tallies = record {
  encode = λ s. s;
  decode = λ s. some s;
  str = digits;
  int = λ s. some (pos (count s));
}

count-digits : (n : ℕ) → count (digits n) ≡ n
count-digits zero = refl
count-digits (suc n) = omega (arith, count-digits n)

pub tallies-RoundTrips : RoundTrips tallies
tallies-RoundTrips = record { decodes = λ s. refl; reads = λ n. rw (count-digits n) }

negated_parts :
    (a : ℤ) → (pos_part (pos 0 -ℤ a) ≡ neg_part a) × (neg_part (pos 0 -ℤ a) ≡ pos_part a)
unfolding ◌-ℤ◌
negated_parts (pos n) = (ground arith, ground arith)
negated_parts (negsuc n) = (ground arith, ground arith)

-- What is computed of the parts changes its sign with the number.
scaled_negate : (f : ℕ → ℕ) (a : ℤ) → scaled f (pos 0 -ℤ a) ≡ pos 0 -ℤ scaled f a
scaled_negate f a = let (p, n) = negated_parts a in rw (p, n) (grind int_laws)

pub eqb_refl : (a : ℤ) → eqb_ℤ a a ≡ true
eqb_refl a = ground arith

round_negate :
    (a : ℤ) (c : Currency ℤ)
    → round_currency_amount hundredths (pos 0 -ℤ a) c
      ≡ pos 0 -ℤ round_currency_amount hundredths a c
unfolding round_currency_amount
round_negate a c = rw scaled_negate (grind int_laws)

pub hundredths-IsSymmetric : IsSymmetric hundredths
hundredths-IsSymmetric = record {
  equality = record {
    reflexive = eqb_refl;
    symmetric = λ a b. ground arith;
    transitive = λ a b c h. ground arith;
  };
  negate_eqb = λ a b. grind int_laws;
  negate_twice = λ a. grind int_laws;
  round_negate =
      λ a c. rw (round_negate a c) (eqb_refl (pos 0 -ℤ round_currency_amount hundredths a c));
}

pub hundredths-IsOrdered : IsOrdered hundredths
hundredths-IsOrdered = record {
  asymmetric = λ a b h. ground arith;
  equal = λ a b h. ground arith;
  connected = λ a b h h'. ground arith;
  transitive = λ a b c h h'. ground arith;
  negate_ltb = λ a b. grind int_laws;
}
