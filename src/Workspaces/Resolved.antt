-- ===== src/Workspaces/Resolved.antt =====
-- Which workspace a target names (portus-window/src/workspace.rs).
use mathlib.Core.Path.{subst}
use portus_window.Base.{
  ◌∙◌, ℕ, ◌≡◌, refl, sym, inl, inr, true, ◌||◌, List, [], ◌∷◌, arith, Text, length, trim, is_empty,
  ltb, leb, ◌==◌, retain-Mem, All-retain, All, Memᴰ, Bool-cases, Result, ok, err,
}
use portus_window.Protocol.Windows.{WorkspaceTarget}
use portus_window.Workspaces.{
  max_workspaces, max_workspace_name_chars, WorkspaceInfo, WorkspaceError, WorkspaceCatalog,
  has_name, any_index, only_match, resolve_index, resolve_name, resolve,
}

-- What a target asks of a workspace.
abbrev pub IsMeant : WorkspaceTarget → WorkspaceInfo → Type 0
IsMeant (WorkspaceTarget.index index) ws = ws.index ≡ index
IsMeant (WorkspaceTarget.name name) ws = has_name (trim name) ws ≡ true

any_index-Mem :
    (index : ℕ) (all : List WorkspaceInfo)
    → any_index index all ≡ true
    → (ws : WorkspaceInfo) × Memᴰ ws all × (ws.index ≡ index)
unfolding any_index
any_index-Mem index [] h = absurd cc
any_index-Mem index (ws ∷ all) h = elim (Bool-cases (ws.index == index)) [
  | inl same ↦ (ws, Memᴰ.head refl, ground arith)
  | inr other ↦
      let (found, m, e) = any_index-Mem index all (rw other at h) in (found, Memᴰ.tail m, e)
]

-- A workspace of the catalog that the target means; of a name, the only one.
abbrev pub IsNamed : WorkspaceCatalog → WorkspaceTarget → ℕ → Type 0
IsNamed catalog target i =
    (ws : WorkspaceInfo) × Memᴰ ws catalog.workspaces
    × (ws.index ≡ i)
    × IsMeant target ws
    × ((n : Text)
        → target ≡ WorkspaceTarget.name n
        → All (λ d. has_name (trim n) d ≡ true → d ≡ ws) catalog.workspaces)

resolve_index-IsNamed :
    (catalog : WorkspaceCatalog) (index i : ℕ)
    → resolve_index catalog index ≡ ok i
    → IsNamed catalog (WorkspaceTarget.index index) i
unfolding resolve_index
resolve_index-IsNamed catalog index i h = elim (Bool-cases (leb max_workspaces index)) [
  | inl far ↦ absurd (refused (rw far at h))
  | inr near ↦ elim (Bool-cases (any_index index catalog.workspaces)) [
    | inl known ↦
        let (ws, m, e) = any_index-Mem index catalog.workspaces known in
        let q : index ≡ i = same (rw (near, known) at h) in
        (ws, m, e ∙ q, e, λ n r. absurd (apart n r))
    | inr unknown ↦ absurd (refused (rw (near, unknown) at h))
  ]
]
  where
    refused : {e : WorkspaceError} → err e ≡ ok i → ⊥
    refused q = cc

    same : ◌≡◌ {A = Result WorkspaceError ℕ} (ok index) (ok i) → index ≡ i
    same q = cc

    apart : (n : Text) → WorkspaceTarget.index index ≡ WorkspaceTarget.name n → ⊥
    apart n q = cc

only_match-ok :
    (name : Text) (all : List WorkspaceInfo) (i : ℕ)
    → only_match name all ≡ ok i
    → (ws : WorkspaceInfo) × (all ≡ ws ∷ []) × (ws.index ≡ i)
unfolding only_match
only_match-ok name [] i h = absurd cc
only_match-ok name (ws ∷ []) i h = (ws, refl, cc)
only_match-ok name (ws ∷ other ∷ rest) i h = absurd cc

resolve_name-IsNamed :
    (catalog : WorkspaceCatalog) (name : Text) (i : ℕ)
    → resolve_name catalog (trim name) ≡ ok i
    → IsNamed catalog (WorkspaceTarget.name name) i
unfolding resolve_name
resolve_name-IsNamed catalog name i h =
    elim (Bool-cases (is_empty (trim name) || ltb max_workspace_name_chars (length (trim name)))) [
      | inl bad ↦ absurd (refused (rw bad at h))
      | inr good ↦
          let p = has_name (trim name) in
          let (ws, only, e) = only_match-ok (trim name) _ i (rw good at h) in
          let kept =
            subst (All λ d. Memᴰ d catalog.workspaces × (p d ≡ true)) only
              (retain-Mem p catalog.workspaces) in
          let others =
            All-retain p (λ d. d ≡ ws) catalog.workspaces
              (subst (All λ d. d ≡ ws) (sym only) (refl, tt)) in
          (
            ws,
            kept.0.0,
            e,
            kept.0.1,
            λ n q.
                let t : name ≡ n = inner n q in
                subst (λ n. All (λ d. has_name (trim n) d ≡ true → d ≡ ws) catalog.workspaces) t
                  others,
          )
    ]
  where
    refused : {e : WorkspaceError} → err e ≡ ok i → ⊥
    refused q = cc

    inner : (n : Text) → WorkspaceTarget.name name ≡ WorkspaceTarget.name n → name ≡ n
    inner n q = cc

-- An index or a name resolves only to the index of a workspace of the catalog that it means, a name
-- only if no other workspace has it, whatever the case of its ASCII letters.
pub resolve-IsNamed :
    (catalog : WorkspaceCatalog) (target : WorkspaceTarget) (i : ℕ)
    → resolve catalog target ≡ ok i
    → IsNamed catalog target i
unfolding resolve
resolve-IsNamed catalog (WorkspaceTarget.index index) i h = resolve_index-IsNamed catalog index i h
resolve-IsNamed catalog (WorkspaceTarget.name name) i h = resolve_name-IsNamed catalog name i h
