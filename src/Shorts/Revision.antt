-- ===== src/Shorts/Revision.antt =====
-- src/core/repository.ts: optimistic concurrency of the edits of a Short.
use short_editor.Prelude.{
  ℕ, ◌+◌, ◌≡◌, refl, ◌∙◌, Bool, true, false, not, ◌&&◌, List, some, arith, find, update_where,
  find-update_where, find-holds, ==→eq, ==_self, if◌then◌else◌,
}
use short_editor.Content.{SourceRange, CaptionState, AudioState}
use short_editor.Store.{Db, Short, Result, ok}
use short_editor.Shorts.{
  short_has_id, get_short, at_revision, ShortPatch, patched, write_short, update_short,
  update_short_timeline, update_short_part, update_short_captions, update_short_audio,
  approve_short, invalidate, edited_part, render_affecting,
}

-- The calls that edit or approve a Short.
pub data Edit : Type 0 where
  patches : ShortPatch → Edit
  sets_timeline : List SourceRange → Edit
  sets_captions : CaptionState → Edit
  sets_audio : AudioState → Edit
  approves : Edit

unfoldable pub apply_edit : Db → ℕ → ℕ → Edit → ℕ → Result (Db × Short)
apply_edit db id expected (patches patch) now = update_short db id expected patch now
apply_edit db id expected (sets_timeline ranges) now =
    update_short_timeline db id expected ranges now
apply_edit db id expected (sets_captions captions) now =
    update_short_captions db id expected captions now
apply_edit db id expected (sets_audio audio) now = update_short_audio db id expected audio now
apply_edit db id expected approves now = approve_short db id expected now

-- The row that a guarded update of the row at the expected revision leaves.
get-updated :
    (shorts : List Short) (id : ℕ) (p : Short → Bool) (f : Short → Short) (current : Short)
    → ((s : Short) → p s ≡ true → short_has_id id s ≡ true)
    → ((s : Short) → p s ≡ true → (f s).id ≡ id)
    → find (short_has_id id) shorts ≡ some current
    → p current ≡ true
    → find (short_has_id id) (update_where p f shorts) ≡ some (f current)
get-updated shorts id p f current own same found hit = rw (
  find-update_where (short_has_id id) p f shorts (λ s h. rw (same s h, own s h) (==_self id)),
  found,
  hit,
)

own_revision :
    (id revision : ℕ) (s : Short)
    → at_revision id revision s ≡ true
    → (short_has_id id s ≡ true) × (s.id ≡ id)
own_revision id revision s h = ground arith

get_short-find :
    (db : Db) (id : ℕ) (s : Short)
    → get_short db id ≡ ok s
    → find (short_has_id id) db.shorts ≡ some s
unfolding get_short
get_short-find db id s h = ground arith

find-matches :
    (db : Db) (id expected : ℕ) (current : Short)
    → find (short_has_id id) db.shorts ≡ some current
    → current.revision ≡ expected
    → at_revision id expected current ≡ true
find-matches db id expected current h e =
    ground (arith, find-holds (short_has_id id) db.shorts current h)

-- What a call that has succeeded says of the row on record before and after it.
abbrev pub Edited : Db → Db → ℕ → ℕ → Short → Short → Bool → Type 0
Edited db next id expected current s approved =
    (current.revision ≡ expected)
    × (get_short next id ≡ ok s)
    × (s.revision ≡ expected + 1)
    × (s.approved ≡ approved)

-- Whether a Short is approved after an edit.
abbrev pub approval : Edit → Short → Bool
approval (patches patch) current = if render_affecting patch then false else current.approved
approval (sets_timeline ranges) current = false
approval (sets_captions captions) current = false
approval (sets_audio audio) current = false
approval approves current = true

part-Edited :
    (db next : Db) (id expected : ℕ) (set : Short → Short) (now : ℕ) (current s : Short)
    → ((t : Short) → (set t).id ≡ t.id)
    → get_short db id ≡ ok current
    → update_short_part db id expected set now ≡ ok (next, s)
    → Edited db next id expected current s false
unfolding update_short_part write_short invalidate get_short
part-Edited db next id expected set now current s same h e =
    let found = get_short-find db id current h in
    let matched : current.revision ≡ expected = ground arith in
    let row =
      get-updated db.shorts id (at_revision id expected) (edited_part set expected now) current
        (λ t hit. (own_revision id expected t hit).0)
        (λ t hit. same t ∙ (own_revision id expected t hit).1) found
        (find-matches db id expected current found matched) in
    (matched, ground arith, ground (arith, row), ground (arith, row))

timeline-Edited :
    (db next : Db) (id expected : ℕ) (ranges : List SourceRange) (now : ℕ) (current s : Short)
    → get_short db id ≡ ok current
    → update_short_timeline db id expected ranges now ≡ ok (next, s)
    → Edited db next id expected current s false
unfolding update_short_timeline write_short invalidate get_short
timeline-Edited db next id expected ranges now current s h e =
    let found = get_short-find db id current h in
    let matched : current.revision ≡ expected = ground arith in
    let row =
      get-updated db.shorts id (at_revision id expected)
        (λ t. record t {
          source_ranges = ranges;
          approved = false;
          revision = current.revision + 1;
          updated_at = now;
        })
        current (λ t hit. (own_revision id expected t hit).0)
        (λ t hit. (own_revision id expected t hit).1) found
        (find-matches db id expected current found matched) in
    (matched, ground arith, ground (arith, row), ground (arith, row))

patch-Edited :
    (db next : Db) (id expected : ℕ) (patch : ShortPatch) (now : ℕ) (current s : Short)
    → get_short db id ≡ ok current
    → update_short db id expected patch now ≡ ok (next, s)
    → Edited db next id expected current s (approval (patches patch) current)
unfolding update_short write_short invalidate get_short
patch-Edited db next id expected patch now current s h e =
    let found = get_short-find db id current h in
    let matched : current.revision ≡ expected = ground arith in
    let own : current.id ≡ id =
      ==→eq current.id id (find-holds (short_has_id id) db.shorts current found) in
    let row =
      get-updated db.shorts id (at_revision id expected) (λ _. patched patch now current) current
        (λ t hit. (own_revision id expected t hit).0) (λ t hit. own) found
        (find-matches db id expected current found matched) in
    let returned : s ≡ patched patch now current = ground arith in
    let shorts : next.shorts
        ≡ update_where (at_revision id expected) (λ _. patched patch now current) db.shorts =
      ground arith in
    (matched, rw (shorts, row, returned), rw returned (rw matched), rw returned)

approve-Edited :
    (db next : Db) (id expected now : ℕ) (current s : Short)
    → get_short db id ≡ ok current
    → approve_short db id expected now ≡ ok (next, s)
    → Edited db next id expected current s true
unfolding approve_short get_short
approve-Edited db next id expected now current s h e =
    let found = get_short-find db id current h in
    let matched : current.revision ≡ expected = ground arith in
    let row =
      get-updated db.shorts id (λ t. at_revision id expected t && not t.approved)
        (λ t. record t { approved = true; revision = t.revision + 1; updated_at = now }) current
        (λ t hit. ground arith) (λ t hit. ground arith) found
        (ground (arith, find-matches db id expected current found matched)) in
    (matched, ground arith, ground (arith, row), ground (arith, row))

-- An edit or approval that goes through was made against the revision on record, gives back the
-- row that is then on record, and moves its revision on by one. The Short is then approved after
-- an approval; not approved after an edit of timeline, composition, captions or audio; and as
-- before after an edit of the rest.
pub edit-Edited :
    (db next : Db) (id expected : ℕ) (e : Edit) (now : ℕ) (current s : Short)
    → get_short db id ≡ ok current
    → apply_edit db id expected e now ≡ ok (next, s)
    → Edited db next id expected current s (approval e current)
unfolding apply_edit update_short_captions update_short_audio
edit-Edited db next id expected (patches patch) now current s h e =
    patch-Edited db next id expected patch now current s h e
edit-Edited db next id expected (sets_timeline ranges) now current s h e =
    timeline-Edited db next id expected ranges now current s h e
edit-Edited db next id expected (sets_captions captions) now current s h e =
    part-Edited db next id expected (λ t. record t { captions = captions }) now current s
      (λ t. refl) h e
edit-Edited db next id expected (sets_audio audio) now current s h e =
    part-Edited db next id expected (λ t. record t { audio = audio }) now current s (λ t. refl) h e
edit-Edited db next id expected approves now current s h e =
    approve-Edited db next id expected now current s h e
