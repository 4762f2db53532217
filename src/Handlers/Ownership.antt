-- ===== src/Handlers/Ownership.antt =====
-- Who owns a sandbox, and what that keeps others from: internal/gateway/sandbox_api.go and api.go.
use sandboxed_ai_agent_orche.Prelude.{
  ℕ, ◌≡◌, ◌≢◌, ◌⊎◌, refl, inl, inr, true, false, none, some, [], arith, Option-cases, Result-cases,
  ◌∙◌, ap,
}
use sandboxed_ai_agent_orche.Prelude.Text.{Text, text_eq_refl}
use sandboxed_ai_agent_orche.Prelude.Table.{lookup, lookup-insert}
use sandboxed_ai_agent_orche.Database.{Sandbox, Tables, Answers, running, upsert_sandbox}
use sandboxed_ai_agent_orche.Database.Users.{log_audit}
use sandboxed_ai_agent_orche.Database.Sandboxes.{upsert, merged}
use sandboxed_ai_agent_orche.Access.{Access, Principal, is_admin, principal_of}
use sandboxed_ai_agent_orche.Supervisor.{Instance, LaunchSpec, Config, HostAnswers, launch}
use sandboxed_ai_agent_orche.Handlers.{Platform, launch_vm, launched_row}

-- The sandbox is somebody else's, and the principal no administrator.
abbrev pub Foreign : Principal → Sandbox → Type 0
Foreign p sb = (is_admin p ≡ false) × (sb.owner_id ≢ []) × (sb.owner_id ≢ p.user_id)

pub upsert_lem :
    (answers : Answers) (now : ℕ) (s : Sandbox) (t : Tables)
    → answers upsert_sandbox ≡ true
    → lookup s.id (upsert answers now s t).1.sandboxes
      ≡ some (merged now s (lookup s.id t.sandboxes))
unfolding upsert
upsert_lem answers now s t fine =
    let row = merged now s (lookup s.id t.sandboxes) in
    rw (fine, upsert) (lookup-insert s.id s.id row t.sandboxes ∙ rw (text_eq_refl s.id) refl)

launch_vm_row :
    (cfg : Config) (answers : Answers) (access : Access) (spec : LaunchSpec) (h : HostAnswers)
    (pf : Platform) (i : Instance)
    → (launch_vm cfg answers access (some spec) h pf).0.1 ≡ some i
    → (launch_vm cfg answers access (some spec) h pf).1.tables.sandboxes
      ≡ (upsert answers h.now (launched_row (principal_of access).user_id i) pf.tables).1.sandboxes
unfolding launch_vm log_audit
launch_vm_row cfg answers access spec h pf i e =
    elim (Result-cases (launch cfg pf.world spec h).0) [
      | inr (x, q) ↦ absurd (cc (rw (q, launch_vm) at e))
      | inl (j, q) ↦
          let same : some j ≡ some i = rw (q, launch_vm) at e in
          let same' : j ≡ i = ground arith in rw (q, launch_vm) (rw same' (ground arith))
    ]

-- A launch that is answered 201 is in the history as running under the new CID, when the database
-- writes the row. It belongs to the caller if the id has no row yet; otherwise it keeps the owner of
-- the row that is there, whoever the caller is.
pub launch_vm_owner :
    (cfg : Config) (answers : Answers) (access : Access) (spec : LaunchSpec) (h : HostAnswers)
    (pf : Platform) (i : Instance)
    → (launch_vm cfg answers access (some spec) h pf).0.1 ≡ some i
    → answers upsert_sandbox ≡ true
    → (sb : Sandbox) × (lookup i.id
          (launch_vm cfg answers access (some spec) h pf).1.tables.sandboxes
        ≡ some sb)
      × (sb.status ≡ running)
      × (sb.cid ≡ i.cid)
      × (((lookup i.id pf.tables.sandboxes ≡ none) × (sb.owner_id ≡ (principal_of access).user_id))
          ⊎ ((old : Sandbox) × (lookup i.id pf.tables.sandboxes ≡ some old)
              × (sb.owner_id ≡ old.owner_id)))
unfolding launched_row merged
launch_vm_owner cfg answers access spec h pf i e fine =
    let row = launched_row (principal_of access).user_id i in
    let old = lookup i.id pf.tables.sandboxes in
    (
      merged h.now row old,
      ap (lookup i.id) (launch_vm_row cfg answers access spec h pf i e)
          ∙ upsert_lem answers h.now row pf.tables fine,
      elim (Option-cases old) [ inl q ↦ rw (q, merged) refl | inr (o, q) ↦ rw (q, merged) refl ],
      elim (Option-cases old) [ inl q ↦ rw (q, merged) refl | inr (o, q) ↦ rw (q, merged) refl ],
      elim (Option-cases old) [
        | inl q ↦ inl (q, rw (q, merged) refl)
        | inr (o, q) ↦ inr (o, q, rw (q, merged) refl)
      ],
    )
