-- ===== src/Jobs/Cloud.antt =====
-- src/core/jobs.ts and `findCloudAuthorization`: no cloud job runs without a current authorization.
use short_editor.Prelude.{
  ℕ, ◌≡◌, refl, inl, inr, Bool, true, false, not, ◌==◌, ◌&&◌, &&_both, ==→eq, subst, List, Option,
  none, some, is_some, arith, find, find-holds, Option-cases, IsIn, IsIn-find, IsIn-any,
}
use Prim.Native.String.{String}
use text.Mathlib.Text.{◌==◌ as str_eq}
use text.Mathlib.TextEquality.{eq_iff}
use short_editor.Store.{
  Db, Job, Provider, local, openai, ScopeType, project, batch, Payload, plain, snapshot, cloud,
  Authorization, ErrorCode, ok, >>=-eq-ok, >>-eq-ok, found_or, found_or-eq-ok,
}
use short_editor.Jobs
use short_editor.Jobs.{
  JobRequest, grants, same_scope, same_provider, new_job, includes, is_openai,
  is_currently_authorized, claim_next, started, enqueue, insert_job, cloud_payload, job_payload,
  non_empty, default_scope, find_cloud_authorization,
}
use short_editor.Jobs.Rows.{HasDistinctIds}
use short_editor.Jobs.Invariant.{claim_next-Claims}

-- A grant that is on record and not revoked, of openai for the scope and the operation, with a
-- credential that is at hand.
pub record IsGranted (available : ℕ → Bool) (db : Db) (operation : String) (scope : ScopeType)
    (scope_id handle : ℕ) : Type 0 where
  pub grant : Authorization
  pub on_record : IsIn grant db.authorizations
  pub current : grant.revoked_at ≡ none
  pub by_openai : grant.provider ≡ openai
  pub of_scope : grant.scope_type ≡ scope
  pub of_id : grant.scope_id ≡ scope_id
  pub covers : IsIn operation grant.operation_classes
  pub credential : grant.credential_handle ≡ some handle
  pub at_hand : available handle ≡ true

same_scope→eq : (a b : ScopeType) → same_scope a b ≡ true → a ≡ b
same_scope→eq project project h = refl
same_scope→eq batch batch h = refl
same_scope→eq project batch h = cc
same_scope→eq batch project h = cc

same_provider→eq : (a b : Provider) → same_provider a b ≡ true → a ≡ b
same_provider→eq local local h = refl
same_provider→eq openai openai h = refl
same_provider→eq local openai h = cc
same_provider→eq openai local h = cc

unrevoked : (o : Option ℕ) → not (is_some o) ≡ true → o ≡ none
unrevoked none h = refl
unrevoked (some n) h = cc

operation_listed : (ss : List String) (s : String) → includes ss s ≡ true → IsIn s ss
operation_listed ss s h =
    let (t, same, there) = IsIn-any (λ t. str_eq t s) ss h in
    subst (λ u. IsIn u ss) ((eq_iff t s).0 same) there

-- What a row says that the query has found.
record IsGrantRow (scope : ScopeType) (id : ℕ) (a : Authorization) : Type 0 where
  current : a.revoked_at ≡ none
  by_openai : a.provider ≡ openai
  of_scope : a.scope_type ≡ scope
  of_id : a.scope_id ≡ id

grants-IsGrantRow :
    (scope : ScopeType) (id : ℕ) (a : Authorization)
    → grants scope id openai a ≡ true
    → IsGrantRow scope id a
grants-IsGrantRow scope id a h =
    let (h₁, free) =
      &&_both (same_scope a.scope_type scope && a.scope_id == id && same_provider a.provider openai)
        _ h in
    let (h₂, by) = &&_both (same_scope a.scope_type scope && a.scope_id == id) _ h₁ in
    let (in_scope, in_id) = &&_both (same_scope a.scope_type scope) _ h₂ in
    record {
      current = unrevoked a.revoked_at free;
      by_openai = same_provider→eq a.provider openai by;
      of_scope = same_scope→eq a.scope_type scope in_scope;
      of_id = ==→eq a.scope_id id in_id;
    }

found_grant :
    (available : ℕ → Bool) (db : Db) (operation : String) (scope : ScopeType) (id handle : ℕ)
    (a : Authorization)
    → find (grants scope id openai) db.authorizations ≡ some a
    → includes a.operation_classes operation ≡ true
    → a.credential_handle ≡ some handle
    → available handle ≡ true
    → IsGranted available db operation scope id handle
found_grant available db operation scope id handle a e covers credential at_hand =
    let row =
      grants-IsGrantRow scope id a (find-holds (grants scope id openai) db.authorizations a e) in
    record {
      grant = a;
      on_record = IsIn-find (grants scope id openai) db.authorizations a e;
      current = row.current;
      by_openai = row.by_openai;
      of_scope = row.of_scope;
      of_id = row.of_id;
      covers = operation_listed a.operation_classes operation covers;
      credential = credential;
      at_hand = at_hand;
    }

abbrev refusal : ErrorCode
refusal = ErrorCode.cloud_not_authorized

module _ (available : ℕ → Bool) where
  authorized-IsGranted :
      (db : Db) (operation : String) (scope : ScopeType) (id handle entity : ℕ) (options : Payload)
      → is_currently_authorized available db (some entity) (cloud operation scope id handle options)
        ≡ true
      → IsGranted available db operation scope id handle
  unfolding is_currently_authorized Jobs.find_cloud_authorization
  authorized-IsGranted db operation scope id handle entity options h =
      elim (Option-cases (find (grants scope id openai) db.authorizations)) [
        | inl missing ↦ (let refused : false ≡ true = ground arith in cc)
        | inr (a, e) ↦
            found_grant available db operation scope id handle a e (ground arith) (ground arith)
              (ground arith)
      ]

  -- A payload that names a grant.
  abbrev pub IsGrantedPayload : Db → Payload → Type 0
  IsGrantedPayload db p =
      (operation : String) × (scope : ScopeType) × (id : ℕ) × (handle : ℕ) × (options : Payload)
      × (p ≡ cloud operation scope id handle options)
      × IsGranted available db operation scope id handle

  authorized-IsGrantedPayload :
      (db : Db) (entity : Option ℕ) (p : Payload)
      → is_currently_authorized available db entity p ≡ true
      → IsGrantedPayload db p
  unfolding is_currently_authorized
  authorized-IsGrantedPayload db (some entity) (cloud operation scope id handle options) h = (
    operation,
    scope,
    id,
    handle,
    options,
    refl,
    authorized-IsGranted db operation scope id handle entity options h,
  )
  authorized-IsGrantedPayload db (some entity) (plain n) h = cc
  authorized-IsGrantedPayload db (some entity) (snapshot s) h = cc
  authorized-IsGrantedPayload db none p h = cc

  -- Where ids are distinct, `claimNext` hands out an openai job only while its payload names a scope,
  -- an operation and a credential for which a grant of openai is on record that is not revoked, has
  -- that scope, lists that operation and holds that credential, which is at hand.
  pub claim_next-IsGrantedPayload :
      (db : Db) (now : ℕ) (k : Job)
      → HasDistinctIds db.jobs
      → (claim_next available db now).1 ≡ some k
      → k.provider ≡ some openai
      → IsGrantedPayload db k.payload
  claim_next-IsGrantedPayload db now k d e cloud_job = elim (claim_next-Claims available db now d) [
    | inl (nothing, r) ↦ (let refused : none ≡ some k = ground arith in cc)
    | inr (j, picked, inl (bad, r)) ↦ (let refused : none ≡ some k = ground arith in cc)
    | inr (j, picked, inr (good, r)) ↦
        let same : started now j ≡ k = ground arith in
        rw (← same) (authorized-IsGrantedPayload db j.entity_id j.payload (ground arith))
  ]

  found-IsGranted :
      (db : Db) (operation : String) (scope : ScopeType) (id handle : ℕ) (a : Authorization)
      → find_cloud_authorization db scope id openai operation ≡ some a
      → a.credential_handle ≡ some handle
      → available handle ≡ true
      → IsGranted available db operation scope id handle
  unfolding find_cloud_authorization
  found-IsGranted db operation scope id handle a e credential at_hand =
      elim (Option-cases (find (grants scope id openai) db.authorizations)) [
        | inl missing ↦ (let refused : none ≡ some a = ground arith in cc)
        | inr (b, on_record) ↦
            let same : b ≡ a = ground arith in
            found_grant available db operation scope id handle a (rw (← same) on_record)
              (ground arith) credential at_hand
      ]

  cloud_payload-IsGrantedPayload :
      (db : Db) (request : JobRequest) (p : Payload)
      → cloud_payload available db request ≡ ok p
      → IsGrantedPayload db p
  unfolding cloud_payload
  cloud_payload-IsGrantedPayload db request p h =
      let (entity, _, h₁) = >>=-eq-ok (found_or request.entity_id refusal) _ h in
      let (operation, _, h₂) =
        >>=-eq-ok (found_or (non_empty request.operation_class) refusal) _ h₁ in
      let scope = default_scope request.scope entity in
      let (a, found, h₃) =
        >>=-eq-ok (found_or (find_cloud_authorization db scope.0 scope.1 openai operation) refusal)
          _ h₂ in
      let (handle, credential, h₄) = >>=-eq-ok (found_or a.credential_handle refusal) _ h₃ in
      let (at_hand, same) = >>-eq-ok (available handle) refusal _ h₄ in
      (
        operation,
        scope.0,
        scope.1,
        handle,
        request.payload,
        ground arith,
        found-IsGranted db operation scope.0 scope.1 handle a (found_or-eq-ok _ _ found)
            (found_or-eq-ok _ _ credential) at_hand,
      )

  -- `enqueue` accepts an openai job only where a grant of openai is on record that is not revoked, has
  -- the scope, lists the operation and holds the credential, at hand, that the payload of the job names;
  -- it adds that job and changes nothing else.
  pub enqueue-IsGrantedPayload :
      (db next : Db) (request : JobRequest) (id now : ℕ) (j : Job)
      → request.provider ≡ some openai
      → enqueue available db request id now ≡ ok (next, j)
      → IsGrantedPayload db j.payload × (next ≡ insert_job db j)
  unfolding enqueue job_payload
  enqueue-IsGrantedPayload db next request id now j cloud_job e =
      let (p, accepted, written) = >>=-eq-ok (job_payload available db request) _ e in
      let written_job : new_job request p id now ≡ j = ground arith in
      let granted = cloud_payload-IsGrantedPayload db request p (ground arith) in
      (rw (← written_job) granted, ground arith)
