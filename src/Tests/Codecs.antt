-- ===== src/Tests/Codecs.antt =====
-- Concrete readers and writers for the parameters that stand for serde: each value is written as
-- visible characters and read back from the front of a text.
use asterism.Prelude.{
  ℕ, zero, suc, ◌+◌, ◌-◌, ◌≡◌, refl, sym, ap, ◌∙◌, Bool, true, ◌&&◌, Option, none, some, List, [],
  ◌∷◌, ◌++◌, arith, ltb, length, rows_assoc, rows_then_nil,
}
use asterism.Text.{Text}

-- No line feed and no carriage return.
abbrev pub all_visible : Text → Bool
all_visible [] = true
all_visible (c ∷ t) = ltb 13 c && all_visible t

pub all_visible-append :
    (s t : Text) → all_visible s ≡ true → all_visible t ≡ true → all_visible (s ++ t) ≡ true
all_visible-append [] t h k = k
all_visible-append (c ∷ s) t h k = ground (arith, all_visible-append s t)

pub record Codec (A : Type 0) : Type 0 where
  pub write : A → Text
  pub read : Text → Option (A × Text)
  pub back : (a : A) (t : Text) → read (write a ++ t) ≡ some (a, t)
  pub visible : (a : A) → all_visible (write a) ≡ true

abbrev read_nat : Text → Option (ℕ × Text)
read_nat [] = none
read_nat (c ∷ t) = some (c - 14, t)

abbrev pub nat : Codec ℕ
nat = record {
  write = λ n. (n + 14) ∷ [];
  read = read_nat;
  back = λ n t. ap (λ (m : ℕ). some (m, t)) (omega arith);
  visible = λ n. ground arith;
}

module _ {A B : Type 0} where
  abbrev with_first : A → Option (B × Text) → Option ((A × B) × Text)
  with_first a none = none
  with_first a (some (b, t)) = some ((a, b), t)

  abbrev read_second : Codec B → Option (A × Text) → Option ((A × B) × Text)
  read_second second none = none
  read_second second (some (a, t)) = with_first a (second.read t)

  abbrev pub pair : Codec A → Codec B → Codec (A × B)
  pair first second = record {
    write = λ ab. first.write ab.0 ++ second.write ab.1;
    read = λ t. read_second second (first.read t);
    back = λ ab t.
        ap (λ s. read_second second (first.read s))
          (rows_assoc (first.write ab.0) (second.write ab.1) t)
        ∙ (ap (read_second second) (first.back ab.0 (second.write ab.1 ++ t))
            ∙ ap (with_first ab.0) (second.back ab.1 t));
    visible = λ ab.
        all_visible-append (first.write ab.0) (second.write ab.1) (first.visible ab.0)
          (second.visible ab.1);
  }

  abbrev read_as : (A → B) → Option (A × Text) → Option (B × Text)
  read_as f none = none
  read_as f (some (a, t)) = some (f a, t)

  -- A type whose values are named by those of another one.
  abbrev pub named : Codec A → (f : A → B) (g : B → A) → ((b : B) → f (g b) ≡ b) → Codec B
  named codec f g h = record {
    write = λ b. codec.write (g b);
    read = λ t. read_as f (codec.read t);
    back = λ b t. ap (read_as f) (codec.back (g b) t) ∙ ap (λ x. some (x, t)) (h b);
    visible = λ b. codec.visible (g b);
  }

module _ {A : Type 0} where
  abbrev pub write_all : Codec A → List A → Text
  write_all codec [] = []
  write_all codec (x ∷ xs) = codec.write x ++ write_all codec xs

  abbrev with_head : A → Option (List A × Text) → Option (List A × Text)
  with_head a none = none
  with_head a (some (xs, t)) = some (a ∷ xs, t)

  abbrev read_more : Option (A × Text) → (Text → Option (List A × Text)) → Option (List A × Text)
  read_more none next = none
  read_more (some (a, t)) next = with_head a (next t)

  abbrev read_all : Codec A → ℕ → Text → Option (List A × Text)
  read_all codec zero t = some ([], t)
  read_all codec (suc n) t = read_more (codec.read t) (read_all codec n)

  pub read_all-write_all :
      (codec : Codec A) (xs : List A) (t : Text)
      → read_all codec (length xs) (write_all codec xs ++ t) ≡ some (xs, t)
  read_all-write_all codec [] t = refl
  read_all-write_all codec (x ∷ xs) t =
      ap (λ s. read_more (codec.read s) (read_all codec (length xs)))
        (rows_assoc (codec.write x) (write_all codec xs) t)
      ∙ (ap (λ r. read_more r (read_all codec (length xs))) (codec.back x (write_all codec xs ++ t))
          ∙ ap (with_head x) (read_all-write_all codec xs t))

  pub all_visible-write_all :
      (codec : Codec A) (xs : List A) → all_visible (write_all codec xs) ≡ true
  all_visible-write_all codec [] = refl
  all_visible-write_all codec (x ∷ xs) =
      all_visible-append (codec.write x) (write_all codec xs) (codec.visible x)
        (all_visible-write_all codec xs)

  abbrev read_list : Codec A → Text → Option (List A × Text)
  read_list codec [] = none
  read_list codec (c ∷ t) = read_all codec (c - 14) t

  abbrev pub list : Codec A → Codec (List A)
  list codec = record {
    write = λ xs. (length xs + 14) ∷ write_all codec xs;
    read = read_list codec;
    back = λ xs t.
        ap (λ n. read_all codec n (write_all codec xs ++ t)) (omega arith)
        ∙ read_all-write_all codec xs t;
    visible = λ xs. ground (arith, all_visible-write_all codec xs);
  }

  abbrev first_of : List A → Option A
  first_of [] = none
  first_of (x ∷ xs) = some x

  abbrev one_of : Option A → List A
  one_of none = []
  one_of (some x) = x ∷ []

  pub first_of-one_of : (o : Option A) → first_of (one_of o) ≡ o
  first_of-one_of none = refl
  first_of-one_of (some x) = refl

  abbrev pub option : Codec A → Codec (Option A)
  option codec = named (list codec) first_of one_of first_of-one_of

abbrev pub text : Codec Text
text = list nat

-- The value that a whole text stands for.
abbrev whole : {A : Type 0} → Option (A × Text) → Option A
whole none = none
whole (some (a, [])) = some a
whole (some (a, c ∷ t)) = none

abbrev pub decode : {A : Type 0} → Codec A → Text → Option A
decode codec t = whole (codec.read t)

pub decode-write : {A : Type 0} (codec : Codec A) (a : A) → decode codec (codec.write a) ≡ some a
decode-write codec a =
    ap (decode codec) (sym (rows_then_nil (codec.write a))) ∙ ap whole (codec.back a [])
