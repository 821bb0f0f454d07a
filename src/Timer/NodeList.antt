-- ===== src/Timer/NodeList.antt =====
-- Node lists that differ in one node.
use mzx.Base.{
  ℕ, ◌≤◌, ◌≡◌, ◌≢◌, List, [], ◌∷◌, ◌++◌, inl, inr, arith, Bool-cases, ◌∙◌, leb, sym, not-leb→lt,
  leb→le,
}
use mzx.Array
use mzx.Array.{length, get_or, length-append, length-set}
use mzx.Timer.Defs.{TimerNode, blank}

-- a node list in which the node `n` alone has been written
abbrev pub ButAt : ℕ → List TimerNode → List TimerNode → Type 0
ButAt n a b = ((x : ℕ) → x ≢ n → get_or b x blank ≡ get_or a x blank) × (length a ≤ length b)

-- after a write at the node `n`
pub ButAt-set : (n : ℕ) (a : List TimerNode) (t : TimerNode) → ButAt n a (Array.set a n t)
ButAt-set n a t =
    (λ x ne. Array.get_or-set_ne blank a n x t (λ s. ne (sym s)), omega (arith, length-set a n t))

pub ButAt-trans : (n : ℕ) (a b d : List TimerNode) → ButAt n a b → ButAt n b d → ButAt n a d
ButAt-trans n a b d p q = (λ x ne. q.0 x ne ∙ p.0 x ne, omega (arith, p.1, q.1))

pub ButAt-append : (a : List TimerNode) (t : TimerNode) → ButAt (length a) a (a ++ t ∷ [])
ButAt-append a t = (others, omega (arith, length-append a (t ∷ [])))
  where
    others : (x : ℕ) → x ≢ length a → get_or (a ++ t ∷ []) x blank ≡ get_or a x blank
    others x ne = elim (Bool-cases (leb (length a) x)) [
      | inl e ↦
          let past : length (a ++ t ∷ []) ≤ x =
            omega (arith, length-append a (t ∷ []), leb→le (length a) x e) in
          Array.get_or-beyond blank (a ++ t ∷ []) x past
          ∙ sym (Array.get_or-beyond blank a x (leb→le (length a) x e))
      | inr e ↦ Array.get_or-append blank a (t ∷ []) x (not-leb→lt (length a) x e)
    ]
