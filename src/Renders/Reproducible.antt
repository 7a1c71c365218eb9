-- ===== src/Renders/Reproducible.antt =====
-- src/core/repository.ts, `completeRenderAttempt`: the Renders that have succeeded with one identity
-- hash show the same streams.
use short_editor.Prelude.{
  ℕ, ◌==◌, ◌≡◌, refl, sym, ◌∙◌, ap, subst, ◌⊎◌, inl, inr, Bool, true, false, ◌&&◌, List, [], ◌∷◌,
  Option, none, some, arith, find, All, All-mono, All-both, All-update_where, if◌then◌else◌,
  Bool-cases, Option-cases, ==_self, ==→eq,
}
use short_editor.Store.{Db, Render, RenderState, Evidence, Determinism, ok}
use short_editor.Jobs.{render_has_id}
use short_editor.Renders.Transition.{
  complete_render_attempt, Completion, matches, compared, first_reference, is_reference,
  reference_before, in_state, same_streams, same_state, has_identity,
}
use short_editor.Renders.Completion.{
  Ending, by_request, by_edit, by_mismatch, by_success, Ended, complete_render_attempt-Ending,
}

-- A succeeded Render has the streams that `std` gives for its identity hash.
abbrev pub AgreesWith : (ℕ → Evidence) → Render → Type 0
AgreesWith std r =
    (d : Determinism)
    → r.state ≡ RenderState.succeeded
    → r.determinism ≡ some d
    → same_streams d.evidence (std d.evidence.identity_hash) ≡ true

abbrev pub IsReproducible : List Render → Type 0
IsReproducible renders = (std : ℕ → Evidence) × All (AgreesWith std) renders

-- `id` is a primary key: a row with the id is the one that a lookup finds.
abbrev pub IsKey : ℕ → List Render → Type 0
IsKey id renders = All (λ r. r.id ≡ id → find (render_has_id id) renders ≡ some r) renders

both_left : (a b : Bool) → a && b ≡ true → a ≡ true
both_left a b h = ground arith

-- Which branch gave the result, and that neither can be empty.
picked {ℓ} :
    {A : Type ℓ} (test : Bool) (a : A) (o : Option A) {b : A}
    → (if test then some a else o) ≡ some b
    → ((test ≡ true) × (a ≡ b)) ⊎ (o ≡ some b)
picked true a o e = inl (refl, cc)
picked false a o e = inr e

unpicked {ℓ} :
    {A : Type ℓ} (test : Bool) (a : A) (o : Option A)
    → (if test then some a else o) ≡ none
    → (test ≡ false) × (o ≡ none)
unpicked true a o e = cc
unpicked false a o e = (refl, e)

module _ (id hash : ℕ) where
  -- The first reference is a reference.
  first_reference-holds :
      (P : Render → Type 0) (renders : List Render) (s : Render)
      → All P renders
      → first_reference id hash renders ≡ some s
      → P s × (is_reference id hash s ≡ true)
  unfolding first_reference
  first_reference-holds P [] s h e = cc
  first_reference-holds P (r ∷ rs) s h e = elim (Option-cases (first_reference id hash rs)) [
    | inl missing ↦ elim (picked (is_reference id hash r) r none (rw missing at e)) [
      | inl (hit, same) ↦ subst (λ x. P x × (is_reference id hash x ≡ true)) same (h.0, hit)
      | inr nothing ↦ cc
    ]
    | inr (t, found) ↦
        elim (picked (is_reference id hash r && reference_before r t) r (some t) (rw found at e)) [
          | inl (hit, same) ↦
              subst (λ x. P x × (is_reference id hash x ≡ true)) same (h.0, both_left _ _ hit)
          | inr rest ↦ first_reference-holds P rs s h.1 (found ∙ rest)
        ]
  ]

  -- Where there is none, no row is one.
  first_reference-none :
      (renders : List Render)
      → first_reference id hash renders ≡ none
      → All (λ r. is_reference id hash r ≡ false) renders
  unfolding first_reference
  first_reference-none [] e = tt
  first_reference-none (r ∷ rs) e = elim (Option-cases (first_reference id hash rs)) [
    | inl missing ↦ (
      (unpicked (is_reference id hash r) r none (rw missing at e)).0,
      first_reference-none rs missing,
    )
    | inr (t, found) ↦
        cc
          ((unpicked (is_reference id hash r && reference_before r t) r (some t) (rw found at e)).1)
  ]

module _ {db : Db} {source : Render} {id expected : ℕ} {c : Completion} {job_id : Option ℕ} where
  succeeded-matches :
      (s : RenderState)
      → Ending db source id expected c job_id s
      → s ≡ RenderState.succeeded
      → matches (first_reference id c.evidence.identity_hash db.renders) c.evidence ≡ true
  succeeded-matches _ (by_request asked) t = cc
  succeeded-matches _ (by_edit s unasked short edited) t = cc
  succeeded-matches _ (by_mismatch s unasked short current valid differs) t = cc
  succeeded-matches _ (by_success s unasked short current valid fits) t = fits

same_streams_right :
    (a b c : Evidence) → same_streams a b ≡ true → same_streams a c ≡ true → same_streams b c ≡ true
same_streams_right a b c h k = ground arith

code_eq : (t : RenderState) → same_state t RenderState.succeeded ≡ true → t ≡ RenderState.succeeded
code_eq RenderState.succeeded e = refl
code_eq RenderState.queued e = cc
code_eq RenderState.running e = cc
code_eq RenderState.failed e = cc
code_eq RenderState.cancelled e = cc
code_eq RenderState.stale e = cc

is_reference-parts :
    (id hash : ℕ) (s : Render)
    → is_reference id hash s ≡ true
    → (s.state ≡ RenderState.succeeded) × (has_identity hash s.determinism ≡ true)
is_reference-parts id hash s h = (code_eq s.state (ground arith), ground arith)

-- The new streams are those of the reference, and so those of `std`.
streams_follow :
    (std : ℕ → Evidence) (id : ℕ) (s : Render) (e : Evidence)
    → AgreesWith std s
    → is_reference id e.identity_hash s ≡ true
    → matches (some s) e ≡ true
    → same_streams e (std e.identity_hash) ≡ true
streams_follow std id s e agrees ref fits = elim (Option-cases s.determinism) [
  | inl missing ↦ cc (rw missing at fits)
  | inr (d, held) ↦
      let (done, named) = is_reference-parts id e.identity_hash s ref in
      let same : same_streams d.evidence e ≡ true = rw held at fits in
      let hash : d.evidence.identity_hash ≡ e.identity_hash = ==→eq _ _ (rw held at named) in
      same_streams_right d.evidence e (std e.identity_hash) same
        (subst (λ n. same_streams d.evidence (std n) ≡ true) hash (agrees d done held))
]

-- `std` with the streams of `e` for its identity hash.
abbrev std_with : (ℕ → Evidence) → Evidence → ℕ → Evidence
std_with std e k = if k == e.identity_hash then e else std k

std_with-AgreesWith :
    (std : ℕ → Evidence) (id : ℕ) (e : Evidence) (x : Render)
    → (x.id ≡ id → x.state ≡ RenderState.running)
    → is_reference id e.identity_hash x ≡ false
    → AgreesWith std x
    → AgreesWith (std_with std e) x
std_with-AgreesWith std id e x own miss agrees d t held =
    elim (Bool-cases (d.evidence.identity_hash == e.identity_hash)) [
      | inl hit ↦ absurd (unmissed hit)
      | inr other ↦ rw other (agrees d t held)
    ]
  where
    unmissed : d.evidence.identity_hash == e.identity_hash ≡ true → ⊥
    unmissed hit = elim (Bool-cases (x.id == id)) [
      | inl same ↦ cc (own (==→eq _ _ same), t)
      | inr differs ↦ cc (rw (differs, t, held, hit) at miss)
    ]

same_streams_self : (e : Evidence) → same_streams e e ≡ true
same_streams_self e = ground arith

compared-evidence : (o : Option Render) (e : Evidence) → (compared o e).evidence ≡ e
compared-evidence none e = refl
compared-evidence (some s) e = refl

module _ (db next : Db) (id expected : ℕ) (c : Completion) (job_id : Option ℕ) (r : Render)
    (key : IsKey id db.renders) (n : Ended db id expected c job_id next r) where
  running_id :
      (x : Render)
      → (x.id ≡ id → find (render_has_id id) db.renders ≡ some x)
      → x.id ≡ id
      → x.state ≡ RenderState.running
  running_id x lookup own =
      let e : n.source ≡ x = cc (n.held, lookup own) in
      subst (λ (y : Render). y.state ≡ RenderState.running) e n.was

  replaced :
      (std : ℕ → Evidence)
      → AgreesWith std r
      → All (AgreesWith std) db.renders
      → IsReproducible next.renders
  replaced std new old = (
    std,
    subst (λ (d : Db). All (AgreesWith std) d.renders) (sym n.written)
        (All-update_where (AgreesWith std) (in_state id n.source.state) (λ _. r) db.renders
          (λ x hit a. new) old),
  )

  new_row :
      (std : ℕ → Evidence)
      → same_streams c.evidence (std c.evidence.identity_hash) ≡ true
      → AgreesWith std r
  new_row std same d t held =
      let reference = first_reference id c.evidence.identity_hash db.renders in
      let e : d ≡ compared reference c.evidence = cc (n.proved t, held) in
      subst (λ (v : Evidence). same_streams v (std v.identity_hash) ≡ true)
        (sym (ap (λ x. x.evidence) e ∙ compared-evidence reference c.evidence)) same

  unreferenced :
      (std : ℕ → Evidence)
      → first_reference id c.evidence.identity_hash db.renders ≡ none
      → All (AgreesWith std) db.renders
      → All (AgreesWith (std_with std c.evidence)) db.renders
  unreferenced std missing old =
      let hash = c.evidence.identity_hash in
      All-mono
        (λ x.
          (x.id ≡ id → find (render_has_id id) db.renders ≡ some x)
          × ((is_reference id hash x ≡ false) × AgreesWith std x))
        (AgreesWith (std_with std c.evidence)) db.renders
        (λ x h. std_with-AgreesWith std id c.evidence x (running_id x h.0) h.1.0 h.1.1)
        (All-both _ _ db.renders key
          (All-both _ _ db.renders (first_reference-none id hash db.renders missing) old))

  succeeded :
      r.state ≡ RenderState.succeeded → IsReproducible db.renders → IsReproducible next.renders
  succeeded t (std, old) =
      let hash = c.evidence.identity_hash in
      let fits = succeeded-matches r.state n.ending t in
      elim (Option-cases (first_reference id hash db.renders)) [
        | inl missing ↦
            replaced (std_with std c.evidence)
              (new_row (std_with std c.evidence) (rw (==_self hash) (same_streams_self c.evidence)))
              (unreferenced std missing old)
        | inr (s, found) ↦
            let (agrees, ref) =
              first_reference-holds id hash (AgreesWith std) db.renders s old found in
            replaced std
              (new_row std (streams_follow std id s c.evidence agrees ref (rw found at fits))) old
      ]

-- Where `id` is a key of the table, the completion of its attempt keeps this: all Renders that
-- have succeeded with one identity hash show the same streams, video and audio.
pub complete_render_attempt-IsReproducible :
    (db next : Db) (id expected : ℕ) (c : Completion) (job_id : Option ℕ) (now : ℕ) (r : Render)
    → IsKey id db.renders
    → IsReproducible db.renders
    → complete_render_attempt db id expected c job_id now ≡ ok (next, r)
    → IsReproducible next.renders
complete_render_attempt-IsReproducible db next id expected c job_id now r key old h =
    let n = complete_render_attempt-Ending db next id expected c job_id now r h in
    elim (Bool-cases (same_state r.state RenderState.succeeded)) [
      | inl done ↦ succeeded db next id expected c job_id r key n (code_eq r.state done) old
      | inr other ↦
          replaced db next id expected c job_id r key n old.0 (λ d t held. cc (rw t at other)) old.1
    ]
