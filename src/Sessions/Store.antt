-- ===== src/Sessions/Store.antt =====
-- The manager keeps one history for each key; and the same history as the session memory of pkg/memory, where a
-- session is there.
use ottie.Prelude.{
  ℕ, suc, ◌-◌, ◌≡◌, inl, inr, refl, sym, ap, ◌∙◌, String, Bool, true, false, Option, none, some,
  List, [], ◌∷◌, ◌++◌, arith, str_eq, eq_iff, Bool-cases, leb, length, drop, if◌then◌else◌,
}
use ottie.Prelude.Int.{ℤ, pos, negsuc, to_ℕ}
use ottie.Prelude.Dict.{lookup, insert, lookup-insert}
use ottie.Sessions.{
  Session, Sessions, get_or_create, created, or_new, add_full_message, messages_of, get_history,
  summary_of, get_summary, change, set_summary, set_history, keep_last_of, truncated,
  truncate_history,
}

-- The operations on the histories.
pub data HistoryOp (M : Type 0) : Type 0 where
  gets_or_creates : String → HistoryOp M
  adds : String → M → HistoryOp M
  sets_summary : String → String → HistoryOp M
  sets_history : String → List M → HistoryOp M
  truncates : String → ℤ → HistoryOp M

-- The abstract session: none, or its messages and its summary.
abbrev pub View : Type 0 → Type 0
View M = Option (List M × String)

module _ {M : Type 0} where
  abbrev pub apply : ℕ → HistoryOp M → Sessions M → Sessions M
  apply now (gets_or_creates key) s = (get_or_create now key s).1
  apply now (adds key msg) s = add_full_message now key msg s
  apply now (sets_summary key summary) s = set_summary now key summary s
  apply now (sets_history key history) s = set_history now key history s
  apply now (truncates key n) s = truncate_history now key n s

  abbrev pub pair_of : Session M → List M × String
  pair_of x = (x.messages, x.summary)

  abbrev pub with_message : M → List M × String → List M × String
  with_message msg v = (v.0 ++ (msg ∷ []), v.1)

  abbrev pub seen : Option (Session M) → View M
  seen none = none
  seen (some s) = some (s.messages, s.summary)

  -- The session of a key as a caller sees it.
  abbrev pub view : String → Sessions M → View M
  view key s = seen (lookup key s)

  abbrev pub view_or_new : View M → List M × String
  view_or_new none = ([], "")
  view_or_new (some v) = v

  abbrev pub with_view : (List M × String → List M × String) → View M → View M
  with_view f none = none
  with_view f (some v) = some (f v)

  -- The last n messages, none for an n that is not positive.
  abbrev pub last_messages : ℤ → List M → List M
  last_messages n xs = drop (length xs - to_ℕ n) xs

  abbrev pub op_key : HistoryOp M → String
  op_key (gets_or_creates key) = key
  op_key (adds key msg) = key
  op_key (sets_summary key summary) = key
  op_key (sets_history key history) = key
  op_key (truncates key n) = key

  -- What an operation does to the view of its own key.
  abbrev pub spec : HistoryOp M → View M → View M
  spec (gets_or_creates key) v = some (view_or_new v)
  spec (adds key msg) v = some (with_message msg (view_or_new v))
  spec (sets_summary key summary) v = with_view (λ x. (x.0, summary)) v
  spec (sets_history key history) v = with_view (λ x. (history, x.1)) v
  spec (truncates key n) v = with_view (λ x. (last_messages n x.0, x.1)) v

  at_insert :
      (key other : String) (x : Session M) (s : Sessions M)
      → view other (insert key x s)
        ≡ (if str_eq other key then some (x.messages, x.summary) else view other s)
  at_insert key other x s = ap seen (lookup-insert key other x s) ∙ by_test (str_eq other key)
    where
      by_test :
          (b : Bool)
          → seen (if b then some x else lookup other s)
            ≡ (if b then some (x.messages, x.summary) else view other s)
      by_test true = refl
      by_test false = refl

  own_view :
      (key other : String) (s : Sessions M) (v : View M)
      → view key s ≡ v
      → view other s ≡ (if str_eq other key then v else view other s)
  own_view key other s v h = elim (Bool-cases (str_eq other key)) [
    | inl e ↦
        let same : other ≡ key = ground (arith, eq_iff other key) in
        rw e (ap (λ k. view k s) same ∙ h)
    | inr e ↦ rw e refl
  ]

  change_lem :
      (f : Session M → Session M) (g : List M × String → List M × String) (key other : String)
      (s : Sessions M) (o : Option (Session M))
      → lookup key s ≡ o
      → ((x : Session M) → ((f x).messages, (f x).summary) ≡ g (x.messages, x.summary))
      → view other (change f key o s)
        ≡ (if str_eq other key then with_view g (seen o) else view other s)
  unfolding change
  change_lem f g key other s none h e = own_view key other s none (ap seen h)
  change_lem f g key other s (some x) h e = at_insert key other (f x) s ∙ rw (e x) refl

  drop_all : (xs : List M) → drop (length xs) xs ≡ []
  drop_all [] = refl
  drop_all (x ∷ xs) = drop_all xs

  drop_none : (xs : List M) → drop (length xs - 0) xs ≡ []
  drop_none xs = let all : length xs - 0 ≡ length xs = omega arith in rw all (drop_all xs)

  kept_lem :
      (now n : ℕ) (x : Session M)
      → pair_of (keep_last_of now (suc n) x) ≡ (last_messages (pos (suc n)) x.messages, x.summary)
  kept_lem now n x = elim (Bool-cases (leb (length x.messages) (suc n))) [
    | inl e ↦ let all : length x.messages - suc n ≡ 0 = ground arith in rw (e, all) refl
    | inr e ↦ rw e refl
  ]

  truncated_lem :
      (now : ℕ) (n : ℤ) (x : Session M)
      → pair_of (truncated now n x) ≡ (last_messages n x.messages, x.summary)
  unfolding truncated
  truncated_lem now (negsuc n) x = ap (λ l. (l, x.summary)) (sym (drop_none x.messages))
  truncated_lem now (pos ℕ.zero) x = ap (λ l. (l, x.summary)) (sym (drop_none x.messages))
  truncated_lem now (pos (suc n)) x = kept_lem now n x

  created_lem :
      (now : ℕ) (key other : String) (s : Sessions M) (o : Option (Session M))
      → lookup key s ≡ o
      → view other (created now key o s).1
        ≡ (if str_eq other key then some (view_or_new (seen o)) else view other s)
  unfolding created
  created_lem now key other s none h = at_insert key other _ s
  created_lem now key other s (some x) h = own_view key other s (seen (some x)) (ap seen h)

  added_lem :
      (now : ℕ) (key : String) (msg : M) (o : Option (Session M))
      → with_message msg (pair_of (or_new now key o)) ≡ with_message msg (view_or_new (seen o))
  added_lem now key msg none = refl
  added_lem now key msg (some x) = refl

  -- Each operation changes the session of its own key as its specification says, at any time, and no other: where
  -- there is no session, only the creation and the addition of a message make one.
  pub apply-refines :
      (now : ℕ) (op : HistoryOp M) (other : String) (s : Sessions M)
      → view other (apply now op s)
        ≡ (if str_eq other (op_key op) then spec op (view (op_key op) s) else view other s)
  unfolding get_or_create add_full_message set_summary set_history truncate_history
  apply-refines now (gets_or_creates key) other s = created_lem now key other s (lookup key s) refl
  apply-refines now (adds key msg) other s =
      at_insert key other _ s ∙ rw (added_lem now key msg (lookup key s)) refl
  apply-refines now (sets_summary key summary) other s =
      change_lem (λ x. record x { summary = summary; updated = now }) (λ x. (x.0, summary)) key
        other s (lookup key s) refl (λ x. refl)
  apply-refines now (sets_history key history) other s =
      change_lem (λ x. record x { messages = history; updated = now }) (λ x. (history, x.1)) key
        other s (lookup key s) refl (λ x. refl)
  apply-refines now (truncates key n) other s =
      change_lem (truncated now n) (λ x. (last_messages n x.0, x.1)) key other s (lookup key s) refl
        (truncated_lem now n)

  -- The messages and the summary that a caller gets are those of the view, and none where there is no session.
  pub get_history-view :
      (key : String) (s : Sessions M)
      → (get_history key s ≡ (view_or_new (view key s)).0)
        × (get_summary key s ≡ (view_or_new (view key s)).1)
  unfolding get_history get_summary
  get_history-view key s = by_session (lookup key s)
    where
      by_session :
          (o : Option (Session M))
          → (messages_of o ≡ (view_or_new (seen o)).0) × (summary_of o ≡ (view_or_new (seen o)).1)
      by_session none = (refl, refl)
      by_session (some x) = (refl, refl)
