-- ===== src/Removal/Safety.antt =====
-- A dry run deletes nothing, and no object is deleted that was not just seen to be the tool's own.
use k2a_token_sync.Base.{
  ◌≡◌, ◌⊎◌, inl, inr, refl, sym, subst, ◌∙◌, Bool, true, false, Bool-cases, Option, none, some,
  List, [], ◌∷◌, arith,
}
use k2a_token_sync.Errors.{Error, Result, ok, err}
use k2a_token_sync.Format.{Printer}
use k2a_token_sync.Inventory.{Entry}
use k2a_token_sync.Removal.{
  cluster_connection, Address, Found, get, delete, History, Server, is_managed, after_read,
  remove_managed, remove_cluster_connection, deleted,
}
use k2a_token_sync.Removal.Guards.{resolve_removal_cluster}
use k2a_token_sync.Removal.Report.{RemoveParams, Progress}
use k2a_token_sync.Removal.Teardown.{execute_removal}
use k2a_token_sync.Removal.Laws.{once_resolved-keeps}

-- The objects that deletes were sent for.
abbrev pub deletes : History → List Address
deletes [] = []
deletes (get o ∷ h) = deletes h
deletes (delete o ∷ h) = o ∷ deletes h

after_read-dry :
    (server : Server) (owned : Found → Bool) (o : Address) (h : History) (answer : Result Found)
    → deletes (after_read server owned true o h answer).history ≡ deletes h
after_read-dry server owned o h (err e) = ground arith
after_read-dry server owned o h (ok found) = ground arith

-- In a dry run of a removal no delete is sent, whatever the servers answer.
pub execute_removal-dry :
    (p : Printer) (server : Server) (params : RemoveParams) (connection : Result Entry)
    (inventory : Result (List Entry)) (s : Progress)
    → params.dry_run ≡ true
    → execute_removal p server params connection inventory [] ≡ ok s
    → deletes s.history ≡ []
unfolding execute_removal remove_managed remove_cluster_connection
execute_removal-dry p server params connection inventory s dry done =
    once_resolved-keeps p server params (λ h. deletes h ≡ []) (λ o h e. e)
      (λ o h e. rw dry (after_read-dry server is_managed o (get o ∷ h) (server.get_answer h o) ∙ e))
      (λ o h mine e.
        rw dry (after_read-dry server (λ _. true) o (get o ∷ h) (server.get_answer h o) ∙ e))
      (λ wet o h e. absurd (ground arith)) inventory []
      (resolve_removal_cluster p connection params.fallback) s refl done

-- The call before was a read of the object, and the answer carried the tool's label.
abbrev pub JustSeen : Server → Address → History → Type 0
JustSeen server o h =
    (before : History) × (found : Found) × (h ≡ (get o ∷ before))
    × (server.get_answer before o ≡ ok found)
    × (is_managed found ≡ true)

-- Every delete is of a ClusterConnection, or of an object that the call before it saw labelled.
abbrev pub Guarded : Server → History → Type 0
Guarded server [] = Unit
Guarded server (get o ∷ h) = Guarded server h
Guarded server (delete o ∷ h) =
    ((o.kind ≡ cluster_connection) ⊎ JustSeen server o h) × Guarded server h

history-deleted : (o : Address) (h : History) (e : Option Error) → (deleted o h e).history ≡ h
history-deleted o h none = refl
history-deleted o h (some e) = ground arith

history-unread :
    (server : Server) (owned : Found → Bool) (dry : Bool) (o : Address) (h : History) (e : Error)
    → (after_read server owned dry o h (err e)).history ≡ h
history-unread server owned dry o h e = ground arith

-- A removal whose delete would be licensed keeps the trace guarded.
after_read-Guarded :
    (server : Server) (owned : Found → Bool) (dry : Bool) (o : Address) (h : History)
    (answer : Result Found)
    → ((found : Found)
        → answer ≡ ok found
        → owned found ≡ true
        → (o.kind ≡ cluster_connection) ⊎ JustSeen server o (get o ∷ h))
    → Guarded server h
    → Guarded server (after_read server owned dry o (get o ∷ h) answer).history
after_read-Guarded server owned dry o h (err e) license g =
    subst (Guarded server) (sym (history-unread server owned dry o (get o ∷ h) e)) g
after_read-Guarded server owned dry o h (ok found) license g = elim (Bool-cases (owned found)) [
  | inr foreign ↦ rw foreign g
  | inl mine ↦ elim (Bool-cases dry) [
    | inl pretend ↦ rw (mine, pretend) g
    | inr real ↦
        rw (mine, real)
          (subst (Guarded server)
            (sym (history-deleted o (delete o ∷ get o ∷ h) (server.delete_answer (get o ∷ h) o)))
            (license found refl mine, g))
  ]
]

managed-Guarded :
    (server : Server) (dry : Bool) (o : Address) (h : History)
    → Guarded server h
    → Guarded server (remove_managed server dry o h).history
unfolding remove_managed
managed-Guarded server dry o h g =
    after_read-Guarded server is_managed dry o h (server.get_answer h o)
      (λ found said mine. inr (h, found, refl, said, mine)) g

-- In a removal, whatever the servers answer and whatever changes meanwhile, no object but a
-- ClusterConnection is deleted unless the call just before was a read of it whose answer carried
-- the tool's label.
pub execute_removal-Guarded :
    (p : Printer) (server : Server) (params : RemoveParams) (connection : Result Entry)
    (inventory : Result (List Entry)) (s : Progress)
    → execute_removal p server params connection inventory [] ≡ ok s
    → Guarded server s.history
unfolding execute_removal remove_managed remove_cluster_connection
execute_removal-Guarded p server params connection inventory s done =
    once_resolved-keeps p server params (Guarded server) (λ o h g. g)
      (λ o h g. managed-Guarded server params.dry_run o h g)
      (λ o h mine g.
        after_read-Guarded server (λ _. true) params.dry_run o h (server.get_answer h o)
          (λ found said yours. inl mine) g)
      (λ wet o h g. managed-Guarded server false o h g) inventory []
      (resolve_removal_cluster p connection params.fallback) s tt done
