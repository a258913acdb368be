-- ===== src/Common/Tests.antt =====
-- Boolean tests on numbers and texts, the conditional, and what a raised exception becomes.
use Prim.Native.Nat.{ℕ, ◌≤◌, ◌<◌, compare, Ordering}
use Prim.Native.String.{String}
use mathlib.Core.Path.{◌≡◌, refl}
use mathlib.Core.Logic.{◌⊎◌, inl, inr}
use mathlib.Core.Bool.{Bool, true, false, ◌&&◌}
use mathlib.Core.Option.{Option, none, some}
use native.Mathlib.Omega.{arith}
use text.Mathlib.Text.{◌==◌ as str_eq}

abbrev pub ltb : ℕ → ℕ → Bool
ltb a b = elim (compare a b) [ Ordering.lt ↦ true | _ ↦ false ]

abbrev pub leb : ℕ → ℕ → Bool
leb a b = elim (compare a b) [ Ordering.gt ↦ false | _ ↦ true ]

infix 50 ◌==◌
abbrev pub ◌==◌ : ℕ → ℕ → Bool
a == b = elim (compare a b) [ Ordering.eq ↦ true | _ ↦ false ]

infix 1 if◌then◌else◌
abbrev pub if◌then◌else◌ {ℓ} : {A : Type ℓ} → Bool → A → A → A
if true then x else y = x
if false then x else y = y

pub ltb→lt : (a b : ℕ) → ltb a b ≡ true → a < b
ltb→lt a b h = ground arith

pub ltb→ge : (a b : ℕ) → ltb a b ≡ false → b ≤ a
ltb→ge a b h = ground arith

pub Bool-cases : (b : Bool) → (b ≡ true) ⊎ (b ≡ false)
Bool-cases true = inl refl
Bool-cases false = inr refl

pub Option-cases {ℓ} : {A : Type ℓ} (o : Option A) → (o ≡ none) ⊎ ((a : A) × (o ≡ some a))
Option-cases none = inl refl
Option-cases (some a) = inr (a, refl)

-- The truth of a text in Python: a text that is not empty.
abbrev pub is_text : String → Bool
is_text s = if str_eq s "" then false else true

abbrev pub is_some {ℓ} : {A : Type ℓ} → Option A → Bool
is_some none = false
is_some (some a) = true

-- A call that returns, raises a `ValueError` with its message, or raises anything else.
pub data Result {u} (R : Type u) : Type u where
  crash : String → Result R
  err : String → Result R
  ok : R → Result R

infixl 5 ◌>>=◌
abbrev pub ◌>>=◌ {u v} : {R : Type u} {S : Type v} → Result R → (R → Result S) → Result S
crash kind >>= next = crash kind
err text >>= next = err text
ok r >>= next = next r

-- `if test: raise ValueError(message)`.
abbrev pub refuse_if : Bool → String → Result (Unit {0})
refuse_if true e = err e
refuse_if false e = ok tt

-- A check, and what runs after it.
infixl 5 ◌>>◌
abbrev pub ◌>>◌ {u} : {S : Type u} → Result (Unit {0}) → Result S → Result S
check >> rest = check >>= λ _. rest

pub some_inj {ℓ} : {A : Type ℓ} {a b : A} → some a ≡ some b → a ≡ b
some_inj e = cc

pub ok_inj {ℓ} : {A : Type ℓ} {a b : A} → ok a ≡ ok b → a ≡ b
ok_inj e = cc

-- What a successful chain went through, for a proof that goes on from there.
pub bind_ok {u v w} :
    {R : Type u} {S : Type v} {Goal : Type w} (call : Result R) (next : R → Result S) {s : S}
    → (call >>= next) ≡ ok s
    → ((r : R) → call ≡ ok r → next r ≡ ok s → Goal)
    → Goal
bind_ok (crash kind) next h go = absurd (cc)
bind_ok (err text) next h go = absurd (cc)
bind_ok (ok r) next h go = go r refl h

-- What holds of both branches holds of the conditional.
pub if_both {u v} :
    {A : Type u} (P : A → Type v) (b : Bool) (x y : A)
    → (b ≡ true → P x)
    → (b ≡ false → P y)
    → P (if b then x else y)
if_both P true x y f g = f refl
if_both P false x y f g = g refl

-- Both sides of a conjunction that is true.
pub and_true : (a b : Bool) → (a && b) ≡ true → (a ≡ true) × (b ≡ true)
and_true true true h = (refl, refl)
and_true true false h = absurd (cc)
and_true false b h = absurd (cc)

-- What `refuse_if` let pass.
pub refuse_if-ok : (b : Bool) (text : String) → refuse_if b text ≡ ok tt → b ≡ false
refuse_if-ok true t e = absurd (cc)
refuse_if-ok false t e = refl

abbrev pub one_if : Bool → ℕ
one_if b = if b then 1 else 0
