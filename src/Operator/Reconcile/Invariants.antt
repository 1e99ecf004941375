-- ===== src/Operator/Reconcile/Invariants.antt =====
-- What any number of reconciliations keeps: the objects of before, names that are taken once, and at
-- most one init command.
use mathlib.Core.Bool.{true≢false}
use churro.Common.{
  eq_iff, ap, suc, ◌≤◌, List, [], ◌∷◌, ◌++◌, some, true, false, ◌≡◌, sym, ◌∙◌, ◌⊎◌, inl, inr, arith,
}
use churro.Common.Action.{Action, of_result, ◌>>=◌}
use churro.Common.Ensures.{Ensures, Ensures-bind, Ensures-weaken, Ensures-write}
use churro.Common.Keeps.{Keeps, Keeps-bind, Keeps-after}
use churro.Operator.{Api, World, Resource, Object, taken, list_pods, exec_init}
use churro.Operator.Ensure.{create_owned}
use churro.Operator.Objects.{taken-append}
use churro.Operator.Objects.Lasting.{
  Lasting, attempt-Keeps, connect-Keeps, logged-Keeps, create-Ensures, create_owned-Keeps,
}
use churro.Operator.Init.{NamespacedName, marker, send_init, init_database}
use churro.Operator.Reconcile.{process_cr, reconcile_all}
use churro.Operator.Reconcile.Lasting.{Requested, process_cr-Keeps, connected_or_panic-Keeps}

module _ {P : World → Type 0} (req : NamespacedName) where
  reconcile_all-keeps :
      ((api : Api) → Keeps P (process_cr api req))
      → (runs : List Api) (s : World) → P s
      → P (reconcile_all req runs s)
  reconcile_all-keeps keep [] s h = h
  reconcile_all-keeps keep (api ∷ runs) s h =
      reconcile_all-keeps keep runs _ (Keeps-after _ (keep api) s h)

module _ (api : Api) {P : World → Type 0} (lasting : Lasting P) where
  send-Keeps :
      ((s : World) → P s → P (record s { init_commands = suc s.init_commands }))
      → Keeps P (send_init api)
  unfolding send_init
  send-Keeps sent =
      Keeps-bind _ _ (record { ensures = Ensures-write _ sent })
        λ _. attempt-Keeps api lasting exec_init

  pub init_database-Keeps :
      ((s : World) → P s → P (record s { init_commands = suc s.init_commands }))
      → (p : Resource) → Keeps P (init_database api p)
  unfolding init_database
  init_database-Keeps sent p =
      Keeps-bind _ _ (create_owned-Keeps api lasting p.name (marker p)) λ _.
        Keeps-bind _ _ (connect-Keeps api lasting) λ b.
          Keeps-bind _ _ (connected_or_panic-Keeps b) λ _.
            Keeps-bind _ _ (logged-Keeps _ (attempt-Keeps api lasting list_pods))
              λ _. send-Keeps sent

module _ (req : NamespacedName) where
  -- The secret that marks the database as initialised is there.
  abbrev Marked : World → Type 0
  Marked s = taken "Secret" req.namespace req.name s.objects ≡ true

  -- No command was sent, or one and the marker is there.
  abbrev AtMostOnce : World → Type 0
  AtMostOnce s = (s.init_commands ≡ 0) ⊎ ((s.init_commands ≡ 1) × Marked s)

  -- The command is about to be sent for the first time.
  abbrev Ready : World → Type 0
  Ready s = (s.init_commands ≡ 0) × Marked s

  Marked-snoc :
      (l : List Object) (o : Object)
      → taken "Secret" req.namespace req.name l ≡ true
      → taken "Secret" req.namespace req.name (l ++ (o ∷ [])) ≡ true
  Marked-snoc l o h = ground (arith, taken-append "Secret" req.namespace req.name l (o ∷ []))

  AtMostOnce-Lasting : Lasting AtMostOnce
  AtMostOnce-Lasting = record {
    called = λ s h. h;
    created =
        λ s o h free. elim h [ inl e ↦ inl e | inr (e, m) ↦ inr (e, Marked-snoc s.objects o m) ];
    stored = λ s p h. h;
  }

  Ready-Lasting : Lasting Ready
  Ready-Lasting = record {
    called = λ s h. h;
    created = λ s o h free. (h.0, Marked-snoc s.objects o h.1);
    stored = λ s p h. h;
  }

  module _ (api : Api) (p : Resource) (asked : Requested req p) where
    marked_by_marker :
        (s : World)
        → AtMostOnce s
        → taken "Secret" p.namespace p.name s.objects ≡ false
        → Ready
            (record s { objects = s.objects ++ (record (marker p) { owner = some p.name } ∷ []) })
    marked_by_marker s (inl e) free = (
      e,
      ground (
        arith,
        taken-append "Secret" req.namespace req.name s.objects
            (record (marker p) { owner = some p.name } ∷ []),
        asked.0,
        asked.1,
        eq_iff p.namespace req.namespace,
        eq_iff p.name req.name,
      ),
    )
    marked_by_marker s (inr (e, m)) free =
        absurd (true≢false (sym m ∙ rw (← asked.0, ← asked.1) free))

    marker-Ready : Ensures AtMostOnce (create_owned api p.name (marker p)) (λ _. Ready) AtMostOnce
    unfolding create_owned of_result ◌>>=◌
    marker-Ready = record {
      at = λ s h.
          (create-Ensures api AtMostOnce-Lasting (record (marker p) { owner = some p.name })
              marked_by_marker).at
            s h;
    }

    soften :
        {A : Type 0} {m : Action World A} → Keeps Ready m → Ensures Ready m (λ _. Ready) AtMostOnce
    soften k = Ensures-weaken k.ensures (λ s h. h) (λ a s h. h) (λ s h. inl h.0)

    send-AtMostOnce : Ensures Ready (send_init api) (λ _. AtMostOnce) AtMostOnce
    unfolding send_init
    send-AtMostOnce =
        Ensures-bind {Q = λ _. AtMostOnce} (Ensures-write _ (λ s h. inr (ap suc h.0, h.1)))
          (λ _. (attempt-Keeps api AtMostOnce-Lasting exec_init).ensures)

    init_database-AtMostOnce : Keeps AtMostOnce (init_database api p)
    unfolding init_database
    init_database-AtMostOnce = record {
      ensures = Ensures-bind marker-Ready λ _.
          Ensures-bind (soften (connect-Keeps api Ready-Lasting)) λ b.
            Ensures-bind (soften (connected_or_panic-Keeps b)) λ _.
              Ensures-bind (soften (logged-Keeps _ (attempt-Keeps api Ready-Lasting list_pods)))
                λ _. send-AtMostOnce;
    }

  bounded : (s : World) → AtMostOnce s → s.init_commands ≤ 1
  bounded s (inl e) = omega (arith, e)
  bounded s (inr (e, m)) = omega (arith, e)

-- Over any number of reconciliations of a custom resource, whatever fails in them, the command that
-- initialises the database is sent at most once, if none was sent before.
pub reconcile_all-init_once :
    (req : NamespacedName) (runs : List Api) (s : World)
    → s.init_commands ≡ 0
    → (reconcile_all req runs s).init_commands ≤ 1
reconcile_all-init_once req runs s none_sent = bounded req (reconcile_all req runs s) (
    reconcile_all-keeps {P = AtMostOnce req} req
      (λ api.
        process_cr-Keeps api (AtMostOnce-Lasting req) (λ t l h. h) req
          λ p asked. init_database-AtMostOnce req api p asked)
      runs s (inl none_sent))
