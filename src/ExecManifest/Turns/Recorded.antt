-- ===== src/ExecManifest/Turns/Recorded.antt =====
-- What Begin does to the turns in flight.
use ottie.Prelude.{
  ℕ, ◌<◌, ◌≡◌, ◌≢◌, sym, ap, ◌∙◌, String, false, some, List, [], ◌∷◌, ◌++◌, arith, eq_iff,
}
use ottie.Prelude.Dict.{lookup}
use ottie.Ledger.Keys.{any-append}
use ottie.ExecManifest.Rows.{TraceRow, has_turn}
use ottie.ExecManifest.Turns.{Counters, Turn, seeding, seeded, holding, pending}
use ottie.ExecManifest.Turns.Fresh.{Differs, IsOpen, IsFresh, All-zip, All-without, Apart-without}

has_turn-snoc :
    (session : String) (n : ℕ) (rows : List TraceRow) (r : TraceRow)
    → has_turn session n rows ≡ false
    → (r.session_id ≡ session → r.turn ≢ n)
    → has_turn session n (rows ++ (r ∷ [])) ≡ false
has_turn-snoc session n rows r h ne =
    rw any-append (ground (arith, eq_iff r.session_id session, h, ne))

-- A turn that is recorded is in flight no more, and the others stay fresh.
pub record-IsFresh :
    (cs : Counters) (rows : List TraceRow) (before after : List Turn) (session : String) (k : ℕ)
    (r : TraceRow)
    → r.session_id ≡ session
    → r.turn ≡ k
    → IsFresh cs rows (before ++ (pending session k ∷ after))
    → IsFresh cs (rows ++ (r ∷ [])) (before ++ after)
record-IsFresh cs rows before after session k r es et h =
    let (mine, others) = All-without (IsOpen cs rows) before (pending session k) after h.open' in
    let (differ, apart) = Apart-without before (pending session k) after h.apart in
    record {
      old = h.old;
      own = h.own;
      above = λ s a n e lt. has_turn-snoc s n rows r (h.above s a n e lt) (other s a n mine e lt);
      open' = All-zip _ _ _ (before ++ after) (still mine) others differ;
      apart = apart;
    }
  where
    other :
        (s : String) (a n : ℕ)
        → IsOpen cs rows (pending session k)
        → lookup s cs.index ≡ some a
        → cs.cells a < n
        → r.session_id ≡ s
        → r.turn ≢ n
    other s a n (a', e', le, free) e lt same eq =
        let both = sym e' ∙ ap (λ x. lookup x cs.index) (sym es ∙ same) ∙ e in
        let one : a' ≡ a = cc both in omega (arith, ap cs.cells one, le, lt, et, eq)

    still :
        IsOpen cs rows (pending session k)
        → (t : Turn) → IsOpen cs rows t
        → Differs (pending session k) t
        → IsOpen cs (rows ++ (r ∷ [])) t
    still mine (seeding s) o d = tt
    still (a', e', le, free) (seeded s n) o d = λ new m lt.
        has_turn-snoc s m rows r (o new m lt)
          (λ same. absurd (cc (sym e' ∙ ap (λ x. lookup x cs.index) (sym es ∙ same) ∙ new)))
    still mine (holding s a) o d = o
    still mine (pending s n) (a, e, le, free) d =
        (a, e, le, has_turn-snoc s n rows r free (λ x y. d (sym es ∙ x) (sym et ∙ y)))
