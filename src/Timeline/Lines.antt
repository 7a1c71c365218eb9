-- ===== src/Timeline/Lines.antt =====
-- src/core/captions.ts, `normalizeLines`: the lines of a caption.
use short_editor.Prelude.{
  ℕ, ◌==◌, ◌≡◌, ◌≢◌, subst, sym, inl, inr, true, false, List, [], ◌∷◌, arith, Bool-cases, ==→eq,
  ==→neq,
}
use short_editor.Timeline.{normalize_after, normalize_lines}

-- A text does not start with a line feed.
abbrev pub StartsApart : List ℕ → Type 0
StartsApart [] = Unit
StartsApart (c ∷ cs) = c ≢ 10

-- The lines of a text and of its normal form: a carriage return (13) with a line feed (10) after it
-- becomes one line feed, as one without does, and the rest stays.
pub data IsNormalized : List ℕ → List ℕ → Type 0 where
  done : IsNormalized [] []
  pair : {cs ds : List ℕ} → IsNormalized cs ds → IsNormalized (13 ∷ 10 ∷ cs) (10 ∷ ds)
  lone : {cs ds : List ℕ} → StartsApart cs → IsNormalized cs ds → IsNormalized (13 ∷ cs) (10 ∷ ds)
  kept : {c : ℕ} {cs ds : List ℕ} → c ≢ 13 → IsNormalized cs ds → IsNormalized (c ∷ cs) (c ∷ ds)

-- From a code point on, and from a carriage return before it on.
normalize_after_lem :
    (cs : List ℕ)
    → IsNormalized cs (normalize_after false cs)
      × IsNormalized (13 ∷ cs) (10 ∷ normalize_after true cs)
unfolding normalize_after
normalize_after_lem [] = (done, lone tt done)
normalize_after_lem (c ∷ cs) =
    let (plain, after_return) = normalize_after_lem cs in
    elim (Bool-cases (c == 13)) [
      | inl return_here ↦
          let first =
            subst (λ n. IsNormalized (n ∷ cs) (10 ∷ normalize_after true cs))
              (sym (==→eq c 13 return_here)) after_return in
          let apart : (c == 10) ≡ false = ground arith in
          (rw return_here first, rw (return_here, apart) (lone (==→neq c 10 apart) first))
      | inr other ↦
          let here = kept {c = c} (==→neq c 13 other) plain in
          (
            rw other here,
            elim (Bool-cases (c == 10)) [
              | inl feed ↦
                  rw (other, feed)
                    (subst (λ n. IsNormalized (13 ∷ n ∷ cs) (10 ∷ normalize_after false cs))
                      (sym (==→eq c 10 feed)) (pair plain))
              | inr apart ↦ rw (other, apart) (lone (==→neq c 10 apart) here)
            ],
          )
    ]

pub normalize_lines-IsNormalized : (text : List ℕ) → IsNormalized text (normalize_lines text)
normalize_lines-IsNormalized text = (normalize_after_lem text).0
