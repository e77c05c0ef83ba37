-- ===== src/DownloadToken/Text.antt =====
-- A text before a dot, and the text after it.
use Prim.Native.String.append
use Prim.Native.String.{[] as empty_text, ◌∷◌ as ◌∷ᵗ◌, ◌++◌ as ◌++ᵗ◌}
use huddle.Prelude.{
  ℕ, suc, ◌+◌, ◌≡◌, refl, ap, ◌∙◌, String, Option, none, some, inl, inr, Bool-cases, arith,
}
use huddle.DownloadToken.{is_dot, one_later, index_of_dot, slice_to, slice_from}

abbrev pub size : String → ℕ
size empty_text = 0
size (c ∷ᵗ s) = suc (size s)

no_later : (o : Option ℕ) → one_later o ≡ none → o ≡ none
no_later none e = refl
no_later (some n) e = cc e

pub index_of_dot-append :
    (s t : String) → index_of_dot s ≡ none → index_of_dot (s ++ᵗ ("." ++ᵗ t)) ≡ some (size s)
index_of_dot-append empty_text t free =
    ap index_of_dot (append.nil ("." ++ᵗ t)) ∙ ap index_of_dot (append.cons "." empty_text t)
index_of_dot-append (c ∷ᵗ s) t free = elim (Bool-cases (is_dot c)) [
  | inl e ↦ absurd (ground (arith, e, free))
  | inr e ↦
      ap index_of_dot (append.cons c s ("." ++ᵗ t))
      ∙ rw (e) (
          ap one_later
            (index_of_dot-append s t (ground (arith, e, free, no_later (index_of_dot s)))))
]

pub slice_to-append : (s t : String) → slice_to (size s) (s ++ᵗ t) ≡ s
slice_to-append empty_text t = refl
slice_to-append (c ∷ᵗ s) t =
    ap (slice_to (suc (size s))) (append.cons c s t) ∙ ap (λ x. c ∷ᵗ x) (slice_to-append s t)

slice_from-after : (s t : String) → slice_from (suc (size s)) (s ++ᵗ ("." ++ᵗ t)) ≡ t
slice_from-after empty_text t =
    ap (slice_from 1) (append.nil ("." ++ᵗ t))
    ∙ (ap (slice_from 1) (append.cons "." empty_text t) ∙ append.nil t)
slice_from-after (c ∷ᵗ s) t =
    ap (slice_from (suc (suc (size s)))) (append.cons c s ("." ++ᵗ t)) ∙ slice_from-after s t

one_more : (n : ℕ) → n + 1 ≡ suc n
one_more n = omega arith

pub slice_from-append : (s t : String) → slice_from (size s + 1) (s ++ᵗ ("." ++ᵗ t)) ≡ t
slice_from-append s t =
    ap (λ n. slice_from n (s ++ᵗ ("." ++ᵗ t))) (one_more (size s)) ∙ slice_from-after s t
