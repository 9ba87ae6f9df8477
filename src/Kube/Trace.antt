-- ===== src/Kube/Trace.antt =====
-- Which requests a run adds to the history.
use aws_node_termination_han.Common.{◌≡◌, Bool, true, false, List, ◌∷◌, if◌then◌else◌}
use aws_node_termination_han.Kube.{
  Error, Result, ok, err, Request, update_node, merge_label, remove_path, set_unschedulable,
  evict_pods, run_node_drain, M, and_then, ◌>>=◌, rethrow, on_error,
}

-- `h'` is `h` with more requests, all of which satisfy `P`.
pub data Extends (P : Request → Type 0) (h : List Request) : List Request → Type 0 where
  same : Extends P h h
  more : {h' : List Request} {q : Request} → P q → Extends P h h' → Extends P h (q ∷ h')

pub Extends-trans :
    {P : Request → Type 0} {f g h : List Request} → Extends P f g → Extends P g h → Extends P f h
Extends-trans a same = a
Extends-trans a (more p b) = more p (Extends-trans a b)

pub Extends-map :
    {P Q : Request → Type 0} {h h' : List Request}
    → ((q : Request) → P q → Q q)
    → Extends P h h'
    → Extends Q h h'
Extends-map f same = same
Extends-map f (more {q = q} p e) = more (f q p) (Extends-map f e)

-- Every request that the run makes satisfies `P`.
abbrev pub Sends : {A : Type 0} → (Request → Type 0) → M A → Type 0
Sends P m = (h : List Request) → Extends P h (m h).1

module _ {P : Request → Type 0} where
  pub and_then-Sends :
      {A B : Type 0} {h : List Request} (r : Result A × List Request) (f : A → M B)
      → Extends P h r.1
      → ((a : A) → Sends P (f a))
      → Extends P h (and_then r f).1
  and_then-Sends (ok a, h') f e s = Extends-trans e (s a h')
  and_then-Sends (err x, h') f e s = e

  pub >>=-Sends :
      {A B : Type 0} (m : M A) (f : A → M B)
      → Sends P m
      → ((a : A) → Sends P (f a))
      → Sends P (m >>= f)
  >>=-Sends m f s t h = and_then-Sends (m h) f (s h) t

  rethrow-Sends :
      {A : Type 0} {h : List Request} (f : Error → Error) (r : Result A × List Request)
      → Extends P h r.1
      → Extends P h (rethrow f r).1
  rethrow-Sends f (ok a, h') e = e
  rethrow-Sends f (err x, h') e = e

  pub on_error-Sends :
      {A : Type 0} (f : Error → Error) (m : M A) → Sends P m → Sends P (on_error f m)
  on_error-Sends f m s h = rethrow-Sends f (m h) (s h)

  pub if-Sends :
      {A : Type 0} (b : Bool) (m k : M A)
      → (b ≡ true → Sends P m)
      → (b ≡ false → Sends P k)
      → Sends P (if b then m else k)
  if-Sends true m k s t = s (λ i. true)
  if-Sends false m k s t = t (λ i. false)

-- The requests that change a node or evict pods. What creates events, and what is asked of the scaling
-- groups and of the queue, is not among them.
abbrev pub changes_node : Request → Bool
changes_node (update_node node) = true
changes_node (merge_label node key value) = true
changes_node (remove_path node path) = true
changes_node (set_unschedulable node on) = true
changes_node (evict_pods pods) = true
changes_node (run_node_drain node) = true
changes_node _ = false

abbrev pub SparesNodes : Request → Type 0
SparesNodes q = changes_node q ≡ false

-- The requests that evict pods.
abbrev pub is_eviction : Request → Bool
is_eviction (evict_pods pods) = true
is_eviction (run_node_drain node) = true
is_eviction _ = false

abbrev pub IsGentle : Request → Type 0
IsGentle q = is_eviction q ≡ false
