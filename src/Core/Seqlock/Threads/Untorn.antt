-- ===== src/Core/Seqlock/Threads/Untorn.antt =====
-- What `Load` of common/core/seqlock.hpp can return while a `Store` goes on.
use toy_exchange.Base.{
  ◌≡◌, ◌≢◌, refl, sym, ◌∙◌, ap, subst, ℕ, suc, ◌+◌, ◌%◌, ◌≤◌, List, [], ◌∷◌, ◌++◌, arith, length,
  get_elem?-lt, get_elem?-set_self, set, take, take-length, take-suc, take-set, length-set,
  length-append,
}
use toy_exchange.Core.Seqlock.Threads.{
  Writer, idle, writing, Reader, ready, copying, returned, Shared, unused, Step, begin_store,
  write_word, end_store, load_before, copy_word, retry, return_result, Steps, done, step,
}

-- Between stores the counter is even and the words are those of the last store; within one it is
-- odd and the first words are the new ones.
abbrev IsWriting : ℕ → List ℕ → List ℕ → Writer → Type 0
IsWriting sequence words stored idle = (sequence % 2 ≡ 0) × (words ≡ stored)
IsWriting sequence words stored (writing v i) =
    (sequence % 2 ≡ 1) × (length v ≡ length words) × (i ≤ length v) × (take i words ≡ take i v)

-- If no store has begun since the first load, what is copied are the first of the words.
abbrev IsReading : ℕ → List ℕ → Reader → Type 0
IsReading sequence words (copying before copied) =
    (before ≤ sequence)
    × (length copied ≤ length words)
    × (before ≡ sequence → before % 2 ≡ 0 → copied ≡ take (length copied) words)
IsReading sequence words _ = Unit

abbrev pub IsSound : Shared → Type 0
IsSound s = IsWriting s.sequence s.words s.stored s.writer × IsReading s.sequence s.words s.reader

-- A change of the counter leaves nothing to claim of a load under way, and so does an odd counter.
IsReading-later :
    (sequence : ℕ) (words : List ℕ) (r : Reader)
    → IsReading sequence words r
    → IsReading (sequence + 1) words r
IsReading-later sequence words ready h = tt
IsReading-later sequence words (copying before copied) (b, l, h) =
    (omega (arith, b), l, λ e. absurd (omega (arith, e, b)))
IsReading-later sequence words (returned v) h = tt

IsReading-odd :
    (sequence : ℕ) (words words' : List ℕ) (r : Reader)
    → sequence % 2 ≡ 1
    → length words' ≡ length words
    → IsReading sequence words r
    → IsReading sequence words' r
IsReading-odd sequence words words' ready odd e h = tt
IsReading-odd sequence words words' (copying before copied) odd e (b, l, h) =
    (b, omega (arith, l, e), λ same even. absurd (omega (arith, same, even, odd)))
IsReading-odd sequence words words' (returned v) odd e h = tt

module _ (s : Shared) where
  IsWriting-at : (w : Writer) → s.writer ≡ w → IsSound s → IsWriting s.sequence s.words s.stored w
  IsWriting-at w e h = subst (IsWriting s.sequence s.words s.stored) e h.0

  IsReading-at : (r : Reader) → s.reader ≡ r → IsSound s → IsReading s.sequence s.words r
  IsReading-at r e h = subst (IsReading s.sequence s.words) e h.1

Step-IsSound : {s t : Shared} → Step s t → IsSound s → IsSound t
Step-IsSound (begin_store s v w e) h =
    let (even, same) = IsWriting-at s idle w h in
    ((omega (arith, even), e, omega arith, refl), IsReading-later s.sequence s.words s.reader h.1)
Step-IsSound (write_word s v i x w e) h =
    let (odd, size, fits, same) = IsWriting-at s (writing v i) w h in
    let inside = get_elem?-lt v i x e in
    let written = get_elem?-set_self s.words i x (omega (arith, inside, size)) in
    (
      (
        odd,
        size ∙ sym (length-set s.words i x),
        omega (arith, inside),
        take-suc (set s.words i x) i x written
            ∙ ap (λ l. l ++ x ∷ []) (take-set s.words i x ∙ same)
            ∙ sym (take-suc v i x e),
      ),
      IsReading-odd s.sequence s.words (set s.words i x) s.reader odd (length-set s.words i x) h.1,
    )
Step-IsSound (end_store s v i w e) h =
    let (odd, size, fits, same) = IsWriting-at s (writing v i) w h in
    let all = subst (λ n. take n s.words ≡ take n v) e same in
    (
      (
        omega (arith, odd),
        sym (take-length s.words) ∙ ap (λ n. take n s.words) (sym size) ∙ all ∙ take-length v,
      ),
      IsReading-later s.sequence s.words s.reader h.1,
    )
Step-IsSound (load_before s r) h = (h.0, (omega arith, omega arith, λ _ _. refl))
Step-IsSound (copy_word s before copied x r e) h =
    let (b, l, c) = IsReading-at s (copying before copied) r h in
    let size = length-append copied (x ∷ []) in
    let grown : suc (length copied) ≡ length (copied ++ x ∷ []) = omega (arith, size) in
    (
      h.0,
      (
        b,
        omega (arith, get_elem?-lt s.words (length copied) x e, size),
        λ same even.
            ap (λ l. l ++ x ∷ []) (c same even)
            ∙ sym (take-suc s.words (length copied) x e)
            ∙ ap (λ n. take n s.words) grown,
      ),
    )
Step-IsSound (retry s before copied r l t) h = (h.0, tt)
Step-IsSound (return_result s before copied r l e even) h = (h.0, tt)

Steps-IsSound : {s t : Shared} → Steps s t → IsSound s → IsSound t
Steps-IsSound (done s) h = h
Steps-IsSound (step s t u a r) h = Steps-IsSound r (Step-IsSound a h)

-- What a `Load` that has returned gives.
result_of : Reader → List ℕ
result_of (returned v) = v
result_of r = []

returned-injective : {v w : List ℕ} → returned v ≡ returned w → v ≡ w
unfolding result_of
returned-injective e = ap result_of e

unwritten : (s : Shared) → s.sequence % 2 ≡ 0 → IsSound s → (s.words ≡ s.stored) × (s.writer ≡ idle)
unwritten s even h = go s.writer refl (h.0)
  where
    go :
        (w : Writer)
        → s.writer ≡ w
        → IsWriting s.sequence s.words s.stored w
        → (s.words ≡ s.stored) × (s.writer ≡ idle)
    go idle e h = (h.1, e)
    go (writing v i) e h = absurd (omega (arith, even, h.0))

return-untorn :
    {s t : Shared} (result : List ℕ)
    → Step s t
    → IsSound s
    → s.reader ≢ returned result
    → t.reader ≡ returned result
    → (result ≡ t.stored) × (t.writer ≡ idle)
return-untorn result (begin_store s v w e) h new now = absurd (new now)
return-untorn result (write_word s v i x w e) h new now = absurd (new now)
return-untorn result (end_store s v i w e) h new now = absurd (new now)
return-untorn result (load_before s r) h new now = cc
return-untorn result (copy_word s before copied x r e) h new now = cc
return-untorn result (retry s before copied r l t) h new now = cc
return-untorn result (return_result s before copied r size same even) h new now =
    let (words, nothing) = unwritten s (omega (arith, same, even)) h in
    let (b, l, c) = IsReading-at s (copying before copied) r h in
    let all = c same even ∙ ap (λ n. take n s.words) size ∙ take-length s.words ∙ words in
    (subst (λ l. l ≡ s.stored) (returned-injective now) all, nothing)

-- In any run of one writer and one reader from an unused lock, at the step with which `Load`
-- returns, no store is under way, and what it returns is the value of the last store that was
-- completed.
pub load-untorn :
    (v : List ℕ) (s t : Shared) (result : List ℕ)
    → Steps (unused v) s
    → Step s t
    → s.reader ≢ returned result
    → t.reader ≡ returned result
    → (result ≡ t.stored) × (t.writer ≡ idle)
load-untorn v s t result steps last new now =
    return-untorn result last (Steps-IsSound steps ((refl, refl), tt)) new now
