-- ===== src/Storage/Inverse.antt =====
-- Two tables that are the inverse of each other, as an index is of what it indexes, and the changes that
-- keep them so.
use canonizr_hda.Prelude.{
  if◌then◌else◌, Text, text_eq, text_eq_iff, ◌≡◌, sym, ◌∙◌, ◌↔◌, Bool, true, Option, none, some,
  arith,
}

-- A text stands for `b` in the index exactly if it is what `b` holds.
pub record IsInverse {B : Type 0} (A : Text → Option B) (K : B → Option Text) : Type 0 where
  pub stored : (h : Text) (b : B) → A h ≡ some b → K b ≡ some h
  pub admitted : (h : Text) (b : B) → K b ≡ some h → A h ≡ some b

module _ {B : Type 0} {A : Text → Option B} {K : B → Option Text} (inverse : IsInverse A K) where
  pub same-IsInverse :
      {A' : Text → Option B} {K' : B → Option Text}
      → ((g : Text) → A' g ≡ A g)
      → ((c : B) → K' c ≡ K c)
      → IsInverse A' K'
  same-IsInverse a k = record {
    stored = λ g c e. k c ∙ inverse.stored g c (sym (a g) ∙ e);
    admitted = λ g c e. a g ∙ inverse.admitted g c (sym (k c) ∙ e);
  }

  module _ (same : B → B → Bool) (same_iff : (b c : B) → (same b c ≡ true) ↔ (b ≡ c)) where
    -- A new entry for a text that stood for nothing.
    pub insert-IsInverse :
        {A' : Text → Option B} {K' : B → Option Text} (h : Text) (b : B)
        → A h ≡ none
        → K b ≡ none
        → ((g : Text) → A' g ≡ (if text_eq h g then some b else A g))
        → ((c : B) → K' c ≡ (if same b c then some h else K c))
        → IsInverse A' K'
    insert-IsInverse h b fresh new a k = record {
      stored = λ g c e. ground (arith, a g, k c, text_eq_iff h g, same_iff b c, inverse.stored g c);
      admitted =
          λ g c e. ground (arith, a g, k c, text_eq_iff h g, same_iff b c, inverse.admitted g c);
    }

    pub erase-IsInverse :
        {A' : Text → Option B} {K' : B → Option Text} (h : Text) (b : B)
        → K b ≡ some h
        → ((g : Text) → A' g ≡ (if text_eq h g then none else A g))
        → ((c : B) → K' c ≡ (if same b c then none else K c))
        → IsInverse A' K'
    erase-IsInverse h b there a k = record {
      stored = λ g c e. ground (arith, a g, k c, text_eq_iff h g, same_iff b c, inverse.stored g c);
      admitted = λ g c e. ground (
        arith,
        a g,
        k c,
        text_eq_iff h g,
        same_iff b c,
        inverse.admitted g c,
        inverse.admitted h b there,
      );
    }

    -- An entry that gets another text, which stood for nothing.
    pub replace-IsInverse :
        {A' : Text → Option B} {K' : B → Option Text} (new old : Text) (b : B)
        → A new ≡ none
        → K b ≡ some old
        → ((g : Text)
            → A' g ≡ (if text_eq new g then some b else if text_eq old g then none else A g))
        → ((c : B) → K' c ≡ (if same b c then some new else K c))
        → IsInverse A' K'
    replace-IsInverse new old b fresh there a k = record {
      stored = λ g c e. ground (
        arith,
        a g,
        k c,
        text_eq_iff new g,
        text_eq_iff old g,
        same_iff b c,
        inverse.stored g c,
        inverse.admitted old b there,
      );
      admitted = λ g c e. ground (
        arith,
        a g,
        k c,
        text_eq_iff new g,
        text_eq_iff old g,
        same_iff b c,
        inverse.admitted g c,
        inverse.admitted old b there,
      );
    }
