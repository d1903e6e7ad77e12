-- ===== src/Workflows/Values.antt =====
-- The values that cross the adapter boundary (src/odoo_mcp/adapters/accounting.py), and the decimal
-- numbers that they hold. A date is its proleptic ordinal, as `date.toordinal` counts it, and the
-- ids, which pydantic keeps positive, are natural numbers.
use odoo_mcp.Prelude.{ℕ, String, Bool, Option, none, some, List, [], ◌∷◌, ◌≡◌, refl, if◌then◌else◌}
use odoo_mcp.Errors.{OdooMcpError}

-- Python's `decimal.Decimal` and the operations of it that the workflows use: its arithmetic rounds
-- in a context that the interpreter sets. `quantize_half_up` is `quantize(Decimal("1"),
-- rounding=ROUND_HALF_UP)` where `quantizes` holds; otherwise `quantize` raises InvalidOperation, as
-- it does where the result has more digits than the context's precision.
pub record Decimal (D : Type 0) : Type 0 where
  pub of_text : String → D
  pub of_int : ℕ → D
  pub plus : D → D → D
  pub minus : D → D → D
  pub times : D → D → D
  pub over : D → D → D
  pub negate : D → D
  pub quantizes : D → Bool
  pub quantize_half_up : D → D
  pub eqb : D → D → Bool
  pub ltb : D → D → Bool

pub record RelatedRecord : Type 0 where
  pub id : ℕ
  pub name : String

-- `None if r is None else r.id`, and the same of the name.
abbrev pub id_of_related : Option RelatedRecord → Option ℕ
id_of_related none = none
id_of_related (some r) = some r.id

abbrev pub name_of_related : Option RelatedRecord → Option String
name_of_related none = none
name_of_related (some r) = some r.name

pub record Currency (D : Type 0) : Type 0 where
  pub id : ℕ
  pub name : String
  pub rounding : D

pub record Journal : Type 0 where
  pub id : ℕ
  pub name : String
  pub code : String
  pub journal_type : String
  pub company_id : ℕ
  pub currency : Option RelatedRecord

-- The fields that the workflows modelled here read.
pub record AccountMoveLine (D : Type 0) : Type 0 where
  pub id : ℕ
  pub move : RelatedRecord
  pub journal : RelatedRecord
  pub partner : Option RelatedRecord
  pub company_id : ℕ
  pub currency : Option RelatedRecord
  pub date : ℕ
  pub label : Option String
  pub debit : D
  pub credit : D
  pub balance : D
  pub residual : D
  pub residual_currency : D
  pub reconciled : Bool

-- The fields that the workflows modelled here read.
pub record BankStatementLine (D : Type 0) : Type 0 where
  pub id : ℕ
  pub date : ℕ
  pub payment_reference : Option String
  pub amount : D
  pub foreign_currency : Option RelatedRecord
  pub partner : Option RelatedRecord
  pub journal : RelatedRecord
  pub company_id : ℕ
  pub reconciled : Bool
  pub move : Option RelatedRecord

pub record RecordPage (A : Type 0) : Type 0 where
  pub items : List A
  pub next_cursor : Option String

-- What a call returns, the error that it raises, or that it raises something else, as a missing key
-- of a dict does.
pub data Reply {ℓ} (A : Type ℓ) : Type ℓ where
  answered : A → Reply A
  refused : OdooMcpError → Reply A
  crashed : Reply A

infixl 10 ◌>>=◌ ◌>>◌
abbrev pub ◌>>=◌ {ℓ κ} : {A : Type ℓ} {B : Type κ} → Reply A → (A → Reply B) → Reply B
answered a >>= f = f a
refused e >>= f = refused e
crashed >>= f = crashed

abbrev pub ◌>>◌ {ℓ κ} : {A : Type ℓ} {B : Type κ} → Reply A → Reply B → Reply B
m >> k = m >>= λ _. k

abbrev pub refuse_if : Bool → OdooMcpError → Reply (Unit {0})
refuse_if b e = if b then refused e else answered tt

-- If the whole answers, so did the first call, and the second on its answer.
pub bind_answered {ℓ κ} :
    {A : Type ℓ} {B : Type κ} (r : Reply A) (f : A → Reply B) (b : B)
    → (r >>= f) ≡ answered b
    → (a : A) × (r ≡ answered a) × (f a ≡ answered b)
bind_answered (answered a) f b h = (a, refl, h)
bind_answered (refused e) f b h = absurd (cc h)
bind_answered crashed f b h = absurd (cc h)

pub some_injective {ℓ} : {A : Type ℓ} {a b : A} → some a ≡ some b → a ≡ b
some_injective h = cc h

pub answered_injective {ℓ} : {A : Type ℓ} {a b : A} → answered a ≡ answered b → a ≡ b
answered_injective h = cc h

-- A loop that stops at the first error.
unfoldable pub for_each : {A B : Type 0} → (A → Reply B) → List A → Reply (List B)
for_each f [] = answered []
for_each f (s ∷ ss) = let rest = for_each f ss in f s >>= λ d. rest >>= λ ds. answered (d ∷ ds)

-- Two ways to go on that agree on every answer.
pub bind_ext {ℓ κ} :
    {A : Type ℓ} {B : Type κ} (r : Reply A) (f g : A → Reply B)
    → ((a : A) → f a ≡ g a)
    → (r >>= f) ≡ (r >>= g)
bind_ext (answered a) f g same = same a
bind_ext (refused e) f g same = refl
bind_ext crashed f g same = refl

-- A call that may run out of the fuel of a loop.
abbrev pub then_reply {ℓ κ} :
    {A : Type ℓ} {B : Type κ} → (A → Option (Reply B)) → Option (Reply A) → Option (Reply B)
then_reply f none = none
then_reply f (some (refused e)) = some (refused e)
then_reply f (some crashed) = some crashed
then_reply f (some (answered a)) = f a

pub then_reply_answered {ℓ κ} :
    {A : Type ℓ} {B : Type κ} (f : A → Option (Reply B)) (o : Option (Reply A)) (b : B)
    → then_reply f o ≡ some (answered b)
    → (a : A) × (o ≡ some (answered a)) × (f a ≡ some (answered b))
then_reply_answered f none b h = absurd (cc h)
then_reply_answered f (some (refused e)) b h = absurd (cc h)
then_reply_answered f (some crashed) b h = absurd (cc h)
then_reply_answered f (some (answered a)) b h = (a, refl, h)
