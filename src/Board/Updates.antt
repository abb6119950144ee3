-- ===== src/Board/Updates.antt =====
-- What UpdateTask does to a task.
use ottie.Prelude.{
  ℕ, ◌≡◌, inl, inr, refl, sym, ap, ◌∙◌, String, Bool, true, false, Option, none, some, [], ◌∷◌,
  arith, str_eq, eq_iff, Bool-cases, if◌then◌else◌,
}
use ottie.Prelude.Dict.{Dict, lookup, lookup-insert, IsMap}
use ottie.Board.{BoardTask, MemoryBoard, set_field, set_fields, update_task, change_task, get_task}

abbrev pub or_old : Option String → String → String
or_old none old = old
or_old (some new) old = new

-- The fields that the map names, and the others as they were.
abbrev pub updated : Dict String → BoardTask → BoardTask
updated u t = record t {
  status = or_old (lookup "status" u) t.status;
  title = or_old (lookup "title" u) t.title;
  description = or_old (lookup "description" u) t.description;
  assigned_to = or_old (lookup "assigned_to" u) t.assigned_to;
}

-- A field after the loop: later pairs do not name it again.
field_lem :
    (name : String) (p : String × String) (ps : Dict String) (old : String)
    → lookup p.0 ps ≡ none
    → or_old (lookup name ps) (if str_eq p.0 name then p.1 else old)
      ≡ or_old (lookup name (p ∷ ps)) old
unfolding lookup
field_lem name p ps old u = elim (Bool-cases (str_eq p.0 name)) [
  | inl y ↦
      let same : p.0 ≡ name = ground (arith, eq_iff p.0 name) in
      let gone = ap (λ k. lookup k ps) (sym same) ∙ u in
      ground (arith, gone, eq_iff name p.0, sym same)
  | inr y ↦ ground (arith, eq_iff name p.0, eq_iff p.0 name)
]

abbrev one_updated : String × String → BoardTask → BoardTask
one_updated p t = record t {
  status = if str_eq p.0 "status" then p.1 else t.status;
  title = if str_eq p.0 "title" then p.1 else t.title;
  description = if str_eq p.0 "description" then p.1 else t.description;
  assigned_to = if str_eq p.0 "assigned_to" then p.1 else t.assigned_to;
}

named :
    (p : String × String) (name : String) (t : BoardTask)
    → str_eq p.0 name ≡ true
    → set_field (name, p.1) t ≡ one_updated (name, p.1) t
    → set_field p t ≡ one_updated p t
named p name t e h =
    let same : p.0 ≡ name = ground (arith, eq_iff p.0 name) in
    let pair : p ≡ (name, p.1) = ap (λ k. (k, p.1)) same in rw pair h

set_field_lem : (p : String × String) (t : BoardTask) → set_field p t ≡ one_updated p t
unfolding set_field
set_field_lem p t = elim (Bool-cases (str_eq p.0 "status")) [
  | inl e ↦ named p "status" t e refl
  | inr a ↦ elim (Bool-cases (str_eq p.0 "title")) [
    | inl e ↦ named p "title" t e refl
    | inr b ↦ elim (Bool-cases (str_eq p.0 "description")) [
      | inl e ↦ named p "description" t e refl
      | inr c ↦ elim (Bool-cases (str_eq p.0 "assigned_to")) [
        | inl e ↦ named p "assigned_to" t e refl
        | inr d ↦ rw (a, b, c, d) refl
      ]
    ]
  ]
]

set_fields_lem : (u : Dict String) (t : BoardTask) → IsMap u → set_fields u t ≡ updated u t
unfolding set_fields IsMap lookup
set_fields_lem [] t m = refl
set_fields_lem (p ∷ ps) t m = rw (set_field_lem p t) (
    set_fields_lem ps (one_updated p t) m.1
    ∙ rw
        (
          field_lem "status" p ps t.status m.0,
          field_lem "title" p ps t.title m.0,
          field_lem "description" p ps t.description m.0,
          field_lem "assigned_to" p ps t.assigned_to m.0,
        )
        refl)

abbrev pub changed : (BoardTask → BoardTask) → Option BoardTask → Option BoardTask
changed f none = none
changed f (some t) = some (f t)

abbrev pub is_there : Option BoardTask → Bool
is_there none = false
is_there (some t) = true

-- A change of one task: whether it is there, and what a later lookup finds.
pub change_task_lem :
    (f : BoardTask → BoardTask) (id other : String) (b : MemoryBoard) (o : Option BoardTask)
    → lookup id b.tasks ≡ o
    → ((change_task f id o b).0 ≡ is_there o)
      × (lookup other (change_task f id o b).1.tasks
          ≡ (if str_eq other id then changed f o else lookup other b.tasks))
unfolding change_task
change_task_lem f id other b none h = (
  refl,
  elim (Bool-cases (str_eq other id)) [
    | inl e ↦
        let same : other ≡ id = ground (arith, eq_iff other id) in
        rw e (ap (λ k. lookup k b.tasks) same ∙ h)
    | inr e ↦ rw e refl
  ],
)
change_task_lem f id other b (some t) h = (refl, lookup-insert id other (f t) b.tasks)

-- In whatever order the map of updates is ranged over, UpdateTask succeeds exactly on a task that is there, sets
-- exactly the fields of it that the map names, and the time, and leaves every other task as it is.
pub update_task_fields :
    (now : ℕ) (id other : String) (u : Dict String) (b : MemoryBoard)
    → IsMap u
    → ((update_task now id u b).0 ≡ is_there (get_task id b))
      × (get_task other (update_task now id u b).1 ≡ (
          if str_eq other id
          then changed (λ t. record (updated u t) { updated_at = now }) (get_task id b)
          else get_task other b))
unfolding update_task get_task
update_task_fields now id other u b m =
    let (there, found) =
      change_task_lem (λ t. record (set_fields u t) { updated_at = now }) id other b
        (lookup id b.tasks) refl in
    (there, found ∙ by_task (lookup id b.tasks))
  where
    by_task :
        (o : Option BoardTask)
        → (if str_eq other id
            then changed (λ t. record (set_fields u t) { updated_at = now }) o
            else lookup other b.tasks)
          ≡ (if str_eq other id
              then changed (λ t. record (updated u t) { updated_at = now }) o
              else lookup other b.tasks)
    by_task none = refl
    by_task (some t) = rw (set_fields_lem u t m) refl
