-- ===== src/Store/Refinement.antt =====
-- The store of interruption events against a specification without lists: a partial function from IDs
-- to events, and the set of the IDs that are ignored.
use aws_node_termination_han.Common.{
  ℕ, ◌≡◌, refl, ◌∙◌, String, Bool, not, ◌&&◌, ◌||◌, Option, none, some, List, [], ◌∷◌,
  if◌then◌else◌, str_eq, lookup, lookup-erase, is_some, arith, Bool-cases, inl, inr,
}
use aws_node_termination_han.Store.{
  Store, RangeOrder, is_ignored, add_interruption_event, cancel_interruption_event,
  mark_all_as_processed, ignore_event,
}
use aws_node_termination_han.Store.Marks.{mark_processed_lem}
use aws_node_termination_han.Store.Admission.{lookup-add_interruption_event}

-- What the goroutines ask of the store: an event arrives, one is cancelled, a node is drained, an ID is to
-- be ignored.
pub data Operation : Type 0 where
  arrives : ℕ → Operation
  cancels : String → Operation
  drained : String → Operation
  ignores : String → Operation

abbrev pub apply : RangeOrder → Operation → Store → Store
apply order (arrives p) s = add_interruption_event p s
apply order (cancels event_id) s = cancel_interruption_event event_id s
apply order (drained node_name) s = mark_all_as_processed order node_name s
apply order (ignores event_id) s = ignore_event event_id s

abbrev pub replay : RangeOrder → List Operation → Store → Store
replay order [] s = s
replay order (operation ∷ operations) s = replay order operations (apply order operation s)

-- The specification: the first event to arrive under an ID is kept until the ID is cancelled, and what
-- is ignored once is ignored for ever. Draining a node changes neither.
pub record Pending : Type 0 where
  pub entry : String → Option ℕ
  pub ignored : String → Bool

abbrev pub specified : (ℕ → String) → Operation → Pending → Pending
specified id_of (arrives p) a = record a {
  entry = λ k. if str_eq (id_of p) k && not (is_some (a.entry k)) then some p else a.entry k;
}
specified id_of (cancels event_id) a = record a {
  entry = λ k. if str_eq event_id k then none else a.entry k;
}
specified id_of (drained node_name) a = a
specified id_of (ignores event_id) a = record a {
  ignored = λ k. not (str_eq event_id "") && str_eq event_id k || a.ignored k;
}

abbrev pub specified_all : (ℕ → String) → List Operation → Pending → Pending
specified_all id_of [] a = a
specified_all id_of (operation ∷ operations) a =
    specified_all id_of operations (specified id_of operation a)

abbrev pub view_of : Store → Pending
view_of s = record { entry = λ k. lookup k s.interruption_event_store; ignored = is_ignored s }

-- The store has the entries, the ignored IDs and the IDs of the events.
pub record Refines (id_of : ℕ → String) (a : Pending) (s : Store) : Type 0 where
  pub same_entry : (k : String) → lookup k s.interruption_event_store ≡ a.entry k
  pub same_ignored : (k : String) → is_ignored s k ≡ a.ignored k
  pub same_id : (p : ℕ) → (s.heap p).event_id ≡ id_of p

add_rest :
    (p : ℕ) (s : Store)
    → ((k : String) → is_ignored (add_interruption_event p s) k ≡ is_ignored s k)
      × ((q : ℕ) → ((add_interruption_event p s).heap q).event_id ≡ (s.heap q).event_id)
unfolding add_interruption_event
add_rest p s = elim (Bool-cases (is_some (lookup (s.heap p).event_id s.interruption_event_store))) [
  | inl e ↦ (λ k. rw (add_interruption_event, e) refl, λ q. rw (add_interruption_event, e) refl)
  | inr e ↦ (λ k. rw (add_interruption_event, e) refl, λ q. rw (add_interruption_event, e) refl)
]

marked_id :
    (order : RangeOrder) (node_name : String) (s : Store) (q : ℕ)
    → ((mark_all_as_processed order node_name s).heap q).event_id ≡ (s.heap q).event_id
unfolding mark_all_as_processed
marked_id order node_name s q =
    ground (arith, mark_processed_lem node_name (order s.interruption_event_store) s.heap q)

ignore_rest :
    (event_id : String) (s : Store)
    → ((k : String)
        → lookup k (ignore_event event_id s).interruption_event_store
          ≡ lookup k s.interruption_event_store)
      × ((q : ℕ) → ((ignore_event event_id s).heap q).event_id ≡ (s.heap q).event_id)
unfolding ignore_event
ignore_rest event_id s = elim (Bool-cases (str_eq event_id "")) [
  | inl e ↦ (λ k. rw (ignore_event, e) refl, λ q. rw (ignore_event, e) refl)
  | inr e ↦ (λ k. rw (ignore_event, e) refl, λ q. rw (ignore_event, e) refl)
]

ignored_lem :
    (event_id : String) (s : Store) (k : String)
    → is_ignored (ignore_event event_id s) k
      ≡ (not (str_eq event_id "") && str_eq event_id k || is_ignored s k)
unfolding ignore_event
ignored_lem event_id s k = ground arith

apply-Refines :
    (order : RangeOrder) (id_of : ℕ → String) (operation : Operation) (a : Pending) (s : Store)
    → Refines id_of a s
    → Refines id_of (specified id_of operation a) (apply order operation s)
unfolding cancel_interruption_event mark_all_as_processed
apply-Refines order id_of (arrives p) a s r = record {
  same_entry = λ k. lookup-add_interruption_event p s k ∙ rw (r.same_id p, r.same_entry k) refl;
  same_ignored = λ k. (add_rest p s).0 k ∙ r.same_ignored k;
  same_id = λ q. (add_rest p s).1 q ∙ r.same_id q;
}
apply-Refines order id_of (cancels event_id) a s r = record {
  same_entry = λ k. lookup-erase event_id k s.interruption_event_store ∙ rw (r.same_entry k) refl;
  same_ignored = r.same_ignored;
  same_id = r.same_id;
}
apply-Refines order id_of (drained node_name) a s r = record {
  same_entry = r.same_entry;
  same_ignored = r.same_ignored;
  same_id = λ q. marked_id order node_name s q ∙ r.same_id q;
}
apply-Refines order id_of (ignores event_id) a s r = record {
  same_entry = λ k. (ignore_rest event_id s).0 k ∙ r.same_entry k;
  same_ignored = λ k. ignored_lem event_id s k ∙ rw (r.same_ignored k) refl;
  same_id = λ q. (ignore_rest event_id s).1 q ∙ r.same_id q;
}

replay-Refines :
    (order : RangeOrder) (id_of : ℕ → String) (operations : List Operation) (a : Pending)
    (s : Store)
    → Refines id_of a s
    → Refines id_of (specified_all id_of operations a) (replay order operations s)
replay-Refines order id_of [] a s r = r
replay-Refines order id_of (operation ∷ operations) a s r =
    replay-Refines order id_of operations (specified id_of operation a) (apply order operation s)
      (apply-Refines order id_of operation a s r)

-- However events arrive and are cancelled, nodes drained and IDs ignored, the store holds the
-- entries and the ignored IDs that the specification has after the same operations.
pub replay-specified_all :
    (order : RangeOrder) (operations : List Operation) (s : Store) (k : String)
    → let a = specified_all (λ p. (s.heap p).event_id) operations (view_of s) in
      (lookup k (replay order operations s).interruption_event_store ≡ a.entry k)
      × (is_ignored (replay order operations s) k ≡ a.ignored k)
replay-specified_all order operations s k =
    let r =
      replay-Refines order (λ p. (s.heap p).event_id) operations (view_of s) s
        (record { same_entry = λ k. refl; same_ignored = λ k. refl; same_id = λ p. refl }) in
    (r.same_entry k, r.same_ignored k)
