-- ===== src/Board/Claims.antt =====
-- What claims and automatic identifiers guarantee, and what they do not.
use Prim.Native.String.{◌++◌, count}
use text.Mathlib.TextLemmas.{length-append}
use ottie.Prelude.{
  ℕ, suc, ◌≡◌, ◌≢◌, inl, inr, refl, sym, ap, ◌∙◌, String, false, some, arith, str_eq, eq_iff,
  eq_refl, Bool-cases, if◌then◌else◌,
}
use ottie.Prelude.Dict.{lookup, lookup-insert}
use ottie.Board.{
  BoardTask, MemoryBoard, posted, post_task, keep_task, claimed, claim_task, get_task,
}
use ottie.Board.Updates.{change_task_lem, changed, is_there}

claim_lem :
    (now : ℕ) (id other assignee : String) (b : MemoryBoard)
    → ((claim_task now id assignee b).0 ≡ is_there (get_task id b))
      × (get_task other (claim_task now id assignee b).1 ≡ (
          if str_eq other id
          then changed (claimed now assignee) (get_task id b)
          else get_task other b))
unfolding claim_task get_task
claim_lem now id other assignee b =
    change_task_lem (claimed now assignee) id other b (lookup id b.tasks) refl

post_lem :
    (render : ℕ → String) (now : ℕ) (t : BoardTask) (b : MemoryBoard) (other : String)
    → let (id, b') = post_task render now t b in
      get_task other b' ≡ (if str_eq other id then some (posted now id t) else get_task other b)
unfolding post_task keep_task get_task
post_lem render now t b other = elim (Bool-cases (str_eq t.id "")) [
  | inl e ↦ rw e (lookup-insert ("task-" ++ render (suc b.next_id)) other _ b.tasks)
  | inr e ↦ rw e (lookup-insert t.id other _ b.tasks)
]

-- PostTask keeps the task under the identifier that it returns, and leaves the tasks of the other identifiers.
pub get_task-post_task :
    (render : ℕ → String) (now : ℕ) (t : BoardTask) (b : MemoryBoard)
    → let (id, b') = post_task render now t b in
      (get_task id b' ≡ some (posted now id t))
      × ((other : String) → other ≢ id → get_task other b' ≡ get_task other b)
get_task-post_task render now t b =
    let id = (post_task render now t b).0 in
    (
      post_lem render now t b id ∙ rw (eq_refl id) refl,
      λ other ne.
          post_lem render now t b other ∙ by_test other (ground (arith, eq_iff other id, ne)),
    )
  where
    by_test :
        (other : String)
        → str_eq other (post_task render now t b).0 ≡ false
        → (if str_eq other (post_task render now t b).0
            then some (posted now (post_task render now t b).0 t)
            else get_task other b)
          ≡ get_task other b
    by_test other e = rw e refl

made_id : (given : String) (tail : String) → given ≡ "task-" ++ tail → str_eq given "" ≡ false
made_id given tail e = ground (arith, eq_iff given "", long)
  where
    long : given ≢ ""
    long f =
        let same = ap count (sym e ∙ f) in
        let joined = length-append "task-" tail in omega (arith, same, joined)

-- A task posted under the identifier that the board makes next, and then one without an identifier: both get the
-- same identifier, and the second stands in place of the first.
pub post_task_collides :
    (render : ℕ → String) (now later : ℕ) (old new : BoardTask) (b : MemoryBoard)
    → old.id ≡ "task-" ++ render (suc b.next_id)
    → new.id ≡ ""
    → let (id, b') = post_task render now old b in
      let (id', b'') = post_task render later new b' in
      (id' ≡ id) × (get_task id b'' ≡ some (posted later id new))
unfolding post_task keep_task get_task
post_task_collides render now later old new b made empty =
    rw (made_id old.id (render (suc b.next_id)) made) (
      rw empty (
        sym made,
        rw made (
            lookup-insert ("task-" ++ render (suc b.next_id)) ("task-" ++ render (suc b.next_id)) _
              _
            ∙ rw (eq_refl ("task-" ++ render (suc b.next_id))) refl),
      ))
