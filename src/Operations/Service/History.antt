-- ===== src/Operations/Service/History.antt =====
-- What `OperationService` promises of the table of operations, whatever other processes write between
-- its calls: an abstract history of the table.
use langgraph_refund_agent.Base.{
  ℕ, suc, ◌<◌, String, ◌≡◌, ◌≢◌, ◌⊎◌, inl, inr, refl, ◌∙◌, true, none, some, List, ◌∷◌, str_eq,
  eq_iff, arith, Bool-cases,
}
use langgraph_refund_agent.Operations.Lifecycle.{
  pending_confirmation, manual_review, transition_allowed,
}
use langgraph_refund_agent.Operations.Lifecycle.Reachability.{Moves, by_table, Moves-trans}
use langgraph_refund_agent.Operations.Record.{OrderOperation}
use langgraph_refund_agent.Operations.Repository.Tables.{Database, find_row, put_row}
use langgraph_refund_agent.Operations.Repository.Rows.{
  find_row-put_row_self, find_row-put_row_other,
}

-- A row is the same, or it has a later version, and is related to the one that it was.
abbrev pub IsLater :
    (OrderOperation → OrderOperation → Type 0) → OrderOperation → OrderOperation → Type 0
IsLater R r s = ((s ≡ r) ⊎ (r.version < s.version)) × R r s

-- No operation is lost, and none changes without a later version.
abbrev pub Evolves :
    (OrderOperation → OrderOperation → Type 0) → List OrderOperation → List OrderOperation → Type 0
Evolves R os ps =
    (id : String) (r : OrderOperation)
    → find_row id os ≡ some r
    → (s : OrderOperation) × ((find_row id ps ≡ some s) × IsLater R r s)

-- Whatever becomes of the row.
abbrev pub IsAny : OrderOperation → OrderOperation → Type 0
IsAny r s = Unit

-- The status and the need of a review move as the repository moves them.
abbrev pub IsMoved : OrderOperation → OrderOperation → Type 0
IsMoved r s = Moves r.status r.requires_manual_review s.status s.requires_manual_review

-- One write of the service: an operation is recorded, awaiting its confirmation; or one changes its
-- status as the lifecycle allows; or one that is being reviewed is linked to its first support case.
pub data Write (os ps : List OrderOperation) : Type 0 where
  recorded :
      (o : OrderOperation)
      → o.status ≡ pending_confirmation
      → o.version ≡ 1
      → find_row o.operation_id os ≡ none
      → ps ≡ o ∷ os
      → Write os ps
  transitioned :
      (old new : OrderOperation)
      → find_row new.operation_id os ≡ some old
      → transition_allowed old.status new.status ≡ true
      → new.version ≡ suc old.version
      → new.requires_manual_review ≡ old.requires_manual_review
      → new.support_case_id ≡ old.support_case_id
      → ps ≡ put_row new os
      → Write os ps
  linked :
      (old new : OrderOperation) (case_id : String)
      → find_row new.operation_id os ≡ some old
      → old.status ≡ manual_review
      → old.requires_manual_review ≡ true
      → old.support_case_id ≡ none
      → new.support_case_id ≡ some case_id
      → new.status ≡ old.status
      → new.version ≡ suc old.version
      → new.requires_manual_review ≡ old.requires_manual_review
      → ps ≡ put_row new os
      → Write os ps

-- From `start`, what the database is after writes of ours and changes by others.
pub data History (others : ℕ → Database → Database)
    (Ours : List OrderOperation → List OrderOperation → Type 0) (start : Database)
    : Database → Type 0 where
  begin : {now : Database} → now ≡ start → History others Ours start now
  ours :
      {before now : Database}
      → History others Ours start before
      → Ours before.operations now.operations
      → History others Ours start now
  theirs :
      {before now : Database} (n : ℕ)
      → History others Ours start before
      → now ≡ others n before
      → History others Ours start now

-- No write of ours.
abbrev pub NoWrite : List OrderOperation → List OrderOperation → Type 0
NoWrite os ps = ⊥

-- A condition that others keep is kept where we write nothing.
pub History-kept :
    (others : ℕ → Database → Database) (P : Database → Type 0) (start now : Database)
    → ((n : ℕ) (d : Database) → P d → P (others n d))
    → History others NoWrite start now
    → P start
    → P now
History-kept others P start now keep (begin e) p = rw e p
History-kept others P start now keep (ours h w) p = absurd w
History-kept others P start now keep (theirs {before} n h e) p =
    rw e (keep n before (History-kept others P start before keep h p))

pub Evolves-refl : (os : List OrderOperation) → Evolves IsMoved os os
Evolves-refl os = λ id r h. (r, (h, (inl refl, Moves.here)))

pub Evolves-IsAny : (os ps : List OrderOperation) → Evolves IsMoved os ps → Evolves IsAny os ps
Evolves-IsAny os ps h = λ id r f. let (s, (g, (later, _))) = h id r f in (s, (g, (later, tt)))

IsLater-trans :
    (r s t : OrderOperation) → IsLater IsMoved r s → IsLater IsMoved s t → IsLater IsMoved r t
IsLater-trans r s t (p, x) (q, y) =
    let order : (t ≡ r) ⊎ (r.version < t.version) = ground arith in (order, Moves-trans x y)

pub Evolves-trans :
    (os ps qs : List OrderOperation)
    → Evolves IsMoved os ps
    → Evolves IsMoved ps qs
    → Evolves IsMoved os qs
Evolves-trans os ps qs h k = λ id r f.
    let (s, (g, a)) = h id r f in let (t, (i, b)) = k id s g in (t, (i, IsLater-trans r s t a b))

-- A row put in the place of its earlier version.
put_row-Evolves :
    (os : List OrderOperation) (old new : OrderOperation)
    → find_row new.operation_id os ≡ some old
    → new.version ≡ suc old.version
    → IsMoved old new
    → Evolves IsMoved os (put_row new os)
put_row-Evolves os old new found version path = λ id r h.
    elim (Bool-cases (str_eq id new.operation_id)) [
      | inl e ↦
          let same = (eq_iff id new.operation_id).0 e in
          let self = find_row-put_row_self new old os found in
          let that : r ≡ old = ground (arith, same, found, h) in
          let later : r.version < new.version = ground (arith, that, version) in
          (new, (ground (arith, same, self), (inr later, rw that path)))
      | inr e ↦
          let differ : id ≢ new.operation_id = ground (arith, eq_iff id new.operation_id) in
          (r, (find_row-put_row_other id new os differ ∙ h, (inl refl, Moves.here)))
    ]

cons-Evolves :
    (os : List OrderOperation) (o : OrderOperation)
    → find_row o.operation_id os ≡ none
    → Evolves IsMoved os (o ∷ os)
unfolding find_row
cons-Evolves os o absent =
    λ id r h. (r, (ground (arith, eq_iff o.operation_id id), (inl refl, Moves.here)))

pub Write-Evolves : {os ps : List OrderOperation} → Write os ps → Evolves IsMoved os ps
Write-Evolves {os} (recorded o status version absent e) = rw e (cons-Evolves os o absent)
Write-Evolves {os} (transitioned old new found allowed version review case e) =
    rw e (put_row-Evolves os old new found version (rw review (by_table Moves.here allowed)))
Write-Evolves {os} (linked old new c found status must none_yet case same version review e) =
    rw e (put_row-Evolves os old new found version (rw (same, review) Moves.here))

-- Where the other processes keep the promise, so does any history of writes of the service.
pub History-Evolves :
    (others : ℕ → Database → Database) (start now : Database)
    → ((n : ℕ) (d : Database) → Evolves IsMoved d.operations (others n d).operations)
    → History others Write start now
    → Evolves IsMoved start.operations now.operations
History-Evolves others start now rely (begin e) = rw e (Evolves-refl start.operations)
History-Evolves others start now rely (ours {before} h w) =
    Evolves-trans start.operations before.operations now.operations
      (History-Evolves others start before rely h) (Write-Evolves w)
History-Evolves others start now rely (theirs {before} n h e) =
    Evolves-trans start.operations before.operations now.operations
      (History-Evolves others start before rely h) (rw e (rely n before))
