-- ===== src/Columnar/Column/Laws.antt =====
-- A column of any type against the list of values that it stands for, one for each row.
use snapdb.Prelude.{
  ℕ, zero, suc, ◌≡◌, refl, sym, ap, subst, ◌∙◌, Bool, true, Option, none, some, List, [], ◌∷◌, ◌++◌,
  map, set, arith,
}
use snapdb.Prelude.Int.{ℤ}
use snapdb.Result.{Result, ok, err}
use snapdb.Value.{Value, null, int, text, bytes}
use snapdb.Utf8.{decode_replace}
use snapdb.Schema.{Code}
use snapdb.Columnar.Nulls.{at_index}
use snapdb.Columnar.Ints
use snapdb.Columnar.Ints.{Ints, fits}
use snapdb.Columnar.Ints.Refine as IntRows
use snapdb.Columnar.Ints.Refine.Writes as IntWrites
use snapdb.Columnar.Ints.Refine.{Fits}
use snapdb.Columnar.Ints.Access
use snapdb.Columnar.Bools
use snapdb.Columnar.Bools.{Bools}
use snapdb.Columnar.Bools.Refine as BitRows
use snapdb.Columnar.Texts
use snapdb.Columnar.Texts.{Blob, Texts, decoded}
use snapdb.Columnar.Texts.View.{View}
use snapdb.Columnar.Texts.Writes as TextWrites
use snapdb.Columnar.Column.{
  Column, ints, bools, texts, truthy, to_bytes, append, int_value, bool_value, text_value, read_as,
}

-- What decides which values a column takes
pub data Kind : Type 0 where
  int_kind : Code → Kind
  bool_kind : Kind
  text_kind : Kind

unfoldable pub kind : Column → Kind
kind (ints c) = int_kind c.code
kind (bools c) = bool_kind
kind (texts c) = text_kind

-- The values that a column stores without an exception
abbrev pub Accepts : Kind → Value → Type 0
Accepts k null = Unit
Accepts (int_kind code) (int z) = fits code z ≡ true
Accepts (int_kind code) (text s) = ⊥
Accepts (int_kind code) (bytes b) = ⊥
Accepts bool_kind v = Unit
Accepts text_kind v = (b : Blob) × (to_bytes v ≡ ok b)

abbrev pub as_text : Result Blob → Value
as_text (ok b) = text (decode_replace b)
as_text (err e) = null

-- What is read back for a value
unfoldable pub shown : Kind → Value → Value
unfolding truthy to_bytes
shown k null = null
shown (int_kind code) v = v
shown bool_kind v = bool_value (some (truthy v))
shown text_kind v = as_text (to_bytes v)

abbrev pub text_values : List (Option Blob) → List Value
text_values os = map text_value (map decoded os)

-- The column stands for the list of values.
abbrev pub Stores : Column → List Value → Type 0
Stores (ints c) vs = (os : List (Option ℤ)) × IntRows.Stores c os × (map int_value os ≡ vs)
Stores (bools c) vs = (os : List (Option Bool)) × BitRows.Stores c os × (map bool_value os ≡ vs)
Stores (texts c) vs = (os : List (Option Blob)) × View c os × (text_values os ≡ vs)

-- A change that succeeded, and the list afterwards
abbrev pub Follows : Column → Result (Unit {0}) × Column → List Value → Type 0
Follows c out vs = (out.0 ≡ ok tt) × Stores out.1 vs × (kind out.1 ≡ kind c)

module _ {A B : Type 0} (f : A → B) where
  map-append : (xs : List A) (x : A) → map f (xs ++ (x ∷ [])) ≡ map f xs ++ (f x ∷ [])
  map-append [] x = refl
  map-append (y ∷ xs) x = ap (λ l. f y ∷ l) (map-append xs x)

  pub map-set : (xs : List A) (i : ℕ) (x : A) → map f (set xs i x) ≡ set (map f xs) i (f x)
  map-set [] i x = refl
  map-set (y ∷ xs) zero x = refl
  map-set (y ∷ xs) (suc i) x = ap (λ l. f y ∷ l) (map-set xs i x)

  pub at_index-map : (xs : List A) (i : ℕ) → at_index (map f xs) i ≡ read_as f (at_index xs i)
  unfolding at_index
  at_index-map [] i = refl
  at_index-map (x ∷ xs) zero = refl
  at_index-map (x ∷ xs) (suc i) = at_index-map xs i

ints_append :
    (c : Ints) (vs : List Value) (o : Option ℤ)
    → Stores (ints c) vs
    → Fits c.code o
    → Follows
        (ints c)
        ((Ints.Access.append o c).0, ints (Ints.Access.append o c).1)
        (vs ++ (int_value o ∷ []))
unfolding kind
ints_append c vs o (os, h, e) f =
    let (fine, st, code) = IntWrites.append-Follows c os o h f in
    (
      fine,
      (os ++ (o ∷ []), st, map-append int_value os o ∙ ap (λ l. l ++ (int_value o ∷ [])) e),
      ap int_kind code,
    )

bools_append :
    (c : Bools) (vs : List Value) (o : Option Bool)
    → Stores (bools c) vs
    → Follows (bools c) (ok tt, bools (Bools.append o c)) (vs ++ (bool_value o ∷ []))
unfolding kind
bools_append c vs o (os, h, e) = (
  refl,
  (
    os ++ (o ∷ []),
    BitRows.append-Stores c os o h,
    map-append bool_value os o ∙ ap (λ l. l ++ (bool_value o ∷ [])) e,
  ),
  refl,
)

texts_append :
    (c : Texts) (vs : List Value) (o : Option Blob)
    → Stores (texts c) vs
    → Follows
        (texts c)
        ((Texts.append o c).0, texts (Texts.append o c).1)
        (vs ++ (text_value (decoded o) ∷ []))
unfolding kind
texts_append c vs o (os, h, e) =
    let (fine, st) = TextWrites.append-View c os o h in
    (
      fine,
      (
        os ++ (o ∷ []),
        st,
        ap (map text_value) (map-append decoded os o)
            ∙ map-append text_value (map decoded os) (decoded o)
            ∙ ap (λ l. l ++ (text_value (decoded o) ∷ [])) e,
      ),
      refl,
    )

texts_append_value :
    (c : Texts) (vs : List Value) (v : Value) (b : Blob)
    → Stores (texts c) vs
    → to_bytes v ≡ ok b
    → append v (texts c) ≡ ((Texts.append (some b) c).0, texts (Texts.append (some b) c).1)
    → Follows (texts c) (append v (texts c)) (vs ++ (as_text (to_bytes v) ∷ []))
unfolding decoded
texts_append_value c vs v b h e into =
    subst (λ out. Follows (texts c) out (vs ++ (as_text (to_bytes v) ∷ []))) (sym into)
      (subst
        (λ r.
          Follows (texts c) ((Texts.append (some b) c).0, texts (Texts.append (some b) c).1)
            (vs ++ (as_text r ∷ [])))
        (sym e) (texts_append c vs (some b) h))

-- A value that the column accepts is appended, and read back as `shown` says.
pub append-Stores :
    (c : Column) (vs : List Value) (v : Value)
    → Stores c vs
    → Accepts (kind c) v
    → Follows c (append v c) (vs ++ (shown (kind c) v ∷ []))
unfolding kind append shown decoded
append-Stores (ints c) vs null h a = ints_append c vs none h tt
append-Stores (ints c) vs (int z) h a = ints_append c vs (some z) h a
append-Stores (ints c) vs (text s) h a = elim a [ ]
append-Stores (ints c) vs (bytes s) h a = elim a [ ]
append-Stores (bools c) vs null h a = bools_append c vs none h
append-Stores (bools c) vs (int z) h a = bools_append c vs (some (truthy (int z))) h
append-Stores (bools c) vs (text s) h a = bools_append c vs (some (truthy (text s))) h
append-Stores (bools c) vs (bytes s) h a = bools_append c vs (some (truthy (bytes s))) h
append-Stores (texts c) vs null h a = texts_append c vs none h
append-Stores (texts c) vs (int z) h (b, e) =
    texts_append_value c vs (int z) b h e (unfold append in ground (arith, e))
append-Stores (texts c) vs (text s) h (b, e) =
    texts_append_value c vs (text s) b h e (unfold append in ground (arith, e))
append-Stores (texts c) vs (bytes s) h (b, e) =
    texts_append_value c vs (bytes s) b h e (unfold append in ground (arith, e))
