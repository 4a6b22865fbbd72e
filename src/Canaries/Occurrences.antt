-- ===== src/Canaries/Occurrences.antt =====
-- Where a text occurs in another (`indexOf` in conformance/src/lib/canaries.ts).
use wop.Prelude.{
  ℕ, zero, suc, ◌+◌, ◌≡◌, ◌≢◌, refl, sym, ap, ◌∙◌, true, none, some, [], ◌∷◌, ◌++◌, length, arith,
}
use wop.Sse.Parser.{Text}
use wop.Canaries.{begins, index_of, drop}

pub begins-front : (m r t : Text) → begins (m ++ r) t ≡ true → begins m t ≡ true
begins-front [] r t h = refl
begins-front (c ∷ m) r [] h = cc
begins-front (c ∷ m) r (d ∷ t) h = ground (arith, h, begins-front m r t)

pub begins-back : (a m t : Text) → begins (a ++ m) t ≡ true → begins m (drop (length a) t) ≡ true
begins-back [] m t h = h
begins-back (c ∷ a) m [] h = cc
begins-back (c ∷ a) m (d ∷ t) h = begins-back a m t (ground (arith, h))

drop_nil : (k : ℕ) → drop k [] ≡ []
drop_nil zero = refl
drop_nil (suc k) = refl

pub drop-drop : (j k : ℕ) (t : Text) → drop j (drop k t) ≡ drop (k + j) t
drop-drop j zero t = let same : j ≡ 0 + j = omega arith in ap (λ (n : ℕ). drop n t) same
drop-drop j (suc k) [] = drop_nil j ∙ sym (drop_nil (suc k + j))
drop-drop j (suc k) (c ∷ t) =
    let same : suc (k + j) ≡ suc k + j = omega arith in
    drop-drop j k t ∙ ap (λ (n : ℕ). drop n (c ∷ t)) same

pub begins-index_of : (m t : Text) (k : ℕ) → index_of m t ≡ some k → begins m (drop k t) ≡ true
unfolding index_of
begins-index_of m [] zero e = ground (arith, e)
begins-index_of m [] (suc k) e = ground (arith, e)
begins-index_of m (d ∷ t) zero e = ground (arith, e)
begins-index_of m (d ∷ t) (suc k) e = begins-index_of m t k (ground (arith, e))

pub index_of-begins : (m t : Text) → begins m t ≡ true → index_of m t ≢ none
unfolding index_of
index_of-begins m [] h e = ground (arith, h, e)
index_of-begins m (d ∷ t) h e = ground (arith, h, e)

pub index_of-drop :
    (m : Text) (k : ℕ) (t : Text) → index_of m (drop k t) ≢ none → index_of m t ≢ none
unfolding index_of
index_of-drop m zero t h = h
index_of-drop m (suc k) [] h = h
index_of-drop m (suc k) (d ∷ t) h = λ e. index_of-drop m k t h (ground (arith, e))
