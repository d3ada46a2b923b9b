-- ===== src/RequireSend/Scopes/Laws.antt =====
-- require-send.mjs: what holds of every finding in the scopes holds of every finding reported, and
-- no reported finding is suppressed.
use ores_lib_core.Base.{
  ◌≡◌, false, List, [], ◌∷◌, Text, nat_eq, list_eq, ◌==◌, All, All-append, if-elim,
}
use ores_lib_core.RequireSend.Suppress.{Suppressions, is_disabled}
use ores_lib_core.RequireSend.Scopes.{
  Finding, Scope, State, scope_set, scope_has, scope_delete, set_current, mark, clear_scopes, clear,
  report, flush_scope, pop_scope, close_scope, flush_scopes,
}

module _ (sup : Suppressions) (P : Finding → Type 0) where
  abbrev pub IsScope : Scope → Type 0
  IsScope scope = All (λ (n, f). P f) scope

  -- A reported finding has the property, and its line is not disabled.
  abbrev pub IsReported : Finding → Type 0
  IsReported f = P f × (is_disabled sup f.line ≡ false)

  abbrev pub IsKept : State → Type 0
  IsKept st = All IsScope st.scopes × All IsReported st.findings

  scope_set-IsScope :
      (name : Text) (f : Finding) (scope : Scope)
      → P f
      → IsScope scope
      → IsScope (scope_set name f scope)
  unfolding scope_set
  scope_set-IsScope name f [] p h = (p, tt)
  scope_set-IsScope name f ((n, g) ∷ rest) p (q, h) =
      if-elim IsScope (n == name) ((n, f) ∷ rest) ((n, g) ∷ scope_set name f rest) (λ _. (p, h))
        λ _. (q, scope_set-IsScope name f rest p h)

  scope_delete-IsScope :
      (name : Text) (scope : Scope) → IsScope scope → IsScope (scope_delete name scope)
  unfolding scope_delete
  scope_delete-IsScope name [] h = tt
  scope_delete-IsScope name ((n, g) ∷ rest) (q, h) =
      if-elim IsScope (n == name) rest ((n, g) ∷ scope_delete name rest) (λ _. h)
        λ _. (q, scope_delete-IsScope name rest h)

  pub mark-IsKept :
      (name : Text) (f : Finding) (st : State) → P f → IsKept st → IsKept (mark name f st)
  mark-IsKept [] f st p h = h
  mark-IsKept (c ∷ name) f st p (h, k) = (set_current-kept st.scopes h, k)
    where
      set_current-kept :
          (scopes : List Scope) → All IsScope scopes → All IsScope (set_current (c ∷ name) f scopes)
      set_current-kept [] h = tt
      set_current-kept (scope ∷ scopes) (a, b) = (scope_set-IsScope (c ∷ name) f scope p a, b)

  clear_scopes-kept :
      (name : Text) (scopes : List Scope)
      → All IsScope scopes
      → All IsScope (clear_scopes name scopes)
  unfolding clear_scopes
  clear_scopes-kept name [] h = tt
  clear_scopes-kept name (scope ∷ scopes) (a, b) =
      if-elim (All IsScope) (scope_has name scope) (scope_delete name scope ∷ scopes)
        (scope ∷ clear_scopes name scopes) (λ _. (scope_delete-IsScope name scope a, b))
        λ _. (a, clear_scopes-kept name scopes b)

  pub clear-IsKept : (name : Text) (st : State) → IsKept st → IsKept (clear name st)
  clear-IsKept [] st h = h
  clear-IsKept (c ∷ name) st (h, k) = (clear_scopes-kept (c ∷ name) st.scopes h, k)

  pub report-IsKept : (f : Finding) (st : State) → P f → IsKept st → IsKept (report sup f st)
  unfolding report
  report-IsKept f st p (h, k) =
      if-elim IsKept (is_disabled sup f.line) st _ (λ _. (h, k))
        λ e. (h, All-append IsReported st.findings (f ∷ []) k ((p, e), tt))

  pub flush_scope-IsKept :
      (scope : Scope) (st : State) → IsScope scope → IsKept st → IsKept (flush_scope sup scope st)
  unfolding flush_scope
  flush_scope-IsKept [] st s h = h
  flush_scope-IsKept ((n, f) ∷ rest) st (p, s) h =
      flush_scope-IsKept rest (report sup f st) s (report-IsKept f st p h)

  pub close_scope-IsKept : (st : State) → IsKept st → IsKept (close_scope sup st)
  close_scope-IsKept st h = pop_scope-kept st.scopes st h.0 h
    where
      pop_scope-kept :
          (scopes : List Scope) (st : State)
          → All IsScope scopes
          → IsKept st
          → IsKept (pop_scope sup scopes st)
      pop_scope-kept [] st s h = h
      pop_scope-kept (scope ∷ []) st s h = h
      pop_scope-kept (scope ∷ outer ∷ scopes) st (a, s) h = flush_scope-IsKept scope _ a (s, h.1)

  pub flush_scopes-IsReported :
      (scopes : List Scope) (findings : List Finding)
      → All IsScope scopes
      → All IsReported findings
      → All IsReported (flush_scopes sup scopes findings)
  unfolding flush_scopes
  flush_scopes-IsReported [] findings s h = h
  flush_scopes-IsReported (scope ∷ scopes) findings (a, s) h =
      flush_scopes-IsReported scopes _ s (flush_scope-IsKept scope _ a (s, h)).1
