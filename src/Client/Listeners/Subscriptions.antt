-- ===== src/Client/Listeners/Subscriptions.antt =====
-- featureflip.go and shared_core.go: which listeners are called, as against the subscriptions that
-- stand.
use featureflip_go.Base.{
  ℕ, suc, ◌≡◌, refl, sym, ap, ◌∙◌, subst, true, false, not, List, [], ◌∷◌, ◌++◌, none, some, Text,
  map, ◌==◌, All-map, arith, Bool-cases, inl, inr,
}
use featureflip_go.Client.Listeners.{
  Registry, put, no_listeners, delete, on_update, unsubscribe, delete_all, close,
  notify_update_listeners,
}
use featureflip_go.Client.Listeners.Standing.{
  Op, subscribes, unsubscribes, closes, shuts_down, Standing, apply_op, apply_ops, subscribed,
  stand, stands, no_subscriptions, entry, IsKnown, Implements, delete-entry, delete_all-entries,
  All-keep, keep_if-same, map-append, All-append,
}

module _ {ℓ} {L : Type ℓ} where
  abbrev listening : ℕ → L → Registry L → Registry L
  listening h l r = record r {
    update_listeners = r.update_listeners ++ (r.next_listener_id, l) ∷ [];
    next_listener_id = suc r.next_listener_id;
    unsubs = put r.unsubs h (r.next_listener_id ∷ r.unsubs h);
  }

  subscribed-Implements :
      (h : ℕ) (l : L) (r : Registry L) (t : Standing L)
      → Implements r t
      → r.disposed h ≡ false
      → Implements (listening h l r) (subscribed h l t)
  subscribed-Implements h l r t i live = record {
    listens =
        ap (λ ls. ls ++ (r.next_listener_id, l) ∷ []) i.listens
        ∙ ap (λ n. map entry t.subscriptions ++ (n, l) ∷ []) i.counts
        ∙ sym (map-append t.subscriptions (h, t.made, l));
    counts = ap suc i.counts;
    closed = i.closed;
    knows =
        All-append (IsKnown (listening h l r)) t.subscriptions (h, t.made, l)
          (All-map (λ s k. older s k) t.subscriptions i.knows)
          (subst (λ n. IsKnown (listening h l r) (h, n, l)) i.counts newest);
    fresh = λ g id le. ground (arith, i.fresh g id, i.fresh h id);
    quiet = λ g e. ground (arith, i.quiet g e, ap r.disposed);
  }
    where
      older : (s : ℕ × ℕ × L) → IsKnown r s → IsKnown (listening h l r) s
      older (g, id, m) k = (ground (arith, k.0), λ j. ground (arith, k.0, k.1 j, k.1 h))

      newest : IsKnown (listening h l r) (h, r.next_listener_id, l)
      newest = (ground arith, λ j. ground (arith, i.fresh j r.next_listener_id))

  abbrev silenced : ℕ → Registry L → Registry L
  silenced h r = record r {
    update_listeners = delete_all (r.unsubs h) r.update_listeners;
    disposed = put r.disposed h true;
    unsubs = put r.unsubs h [];
  }

  silenced-Implements :
      (h : ℕ) (r : Registry L) (t : Standing L)
      → Implements r t
      → Implements (silenced h r) (stand (closes h) t)
  silenced-Implements h r t i = record {
    listens =
        ap (delete_all (r.unsubs h)) i.listens
        ∙ delete_all-entries h (r.unsubs h) r t.subscriptions refl i.knows;
    counts = i.counts;
    closed = λ g. ground (arith, i.closed g);
    knows =
        All-keep (IsKnown r) (IsKnown (silenced h r)) (λ g j. not (g == h)) t.subscriptions
          (λ g id l e k. (k.0, λ j. ground (arith, k.1 j))) i.knows;
    fresh = λ g id le. ground (arith, i.fresh g id le);
    quiet = λ g e. ground (arith, i.quiet g);
  }

  closed-Implements :
      (h : ℕ) (r : Registry L) (t : Standing L)
      → Implements r t
      → r.disposed h ≡ true
      → Implements r (stand (closes h) t)
  closed-Implements h r t i shut = record {
    listens =
        i.listens
        ∙ ap (map entry) (sym (keep_if-same r h t.subscriptions (i.quiet h shut) i.knows));
    counts = i.counts;
    closed = λ g. elim (Bool-cases (h == g)) [
      | inl e ↦ rw e (sym (ap r.disposed (ground arith)) ∙ shut)
      | inr e ↦ rw e (i.closed g)
    ];
    knows =
        All-keep (IsKnown r) (IsKnown r) (λ g j. not (g == h)) t.subscriptions (λ g id l e k. k)
          i.knows;
    fresh = i.fresh;
    quiet = i.quiet;
  }

  op-Implements :
      (op : Op L) (r : Registry L) (t : Standing L)
      → Implements r t
      → Implements (apply_op op r) (stand op t)
  unfolding on_update close
  op-Implements (subscribes h none) r t i = i
  op-Implements (subscribes h (some l)) r t i = elim (Bool-cases (r.disposed h)) [
    | inl shut ↦ rw (apply_op, on_update, shut, sym (i.closed h) ∙ shut) i
    | inr live ↦
        rw (apply_op, on_update, live, sym (i.closed h) ∙ live)
          (subscribed-Implements h l r t i live)
  ]
  op-Implements (unsubscribes id) r t i = record {
    listens = ap (delete id) i.listens ∙ delete-entry id t.subscriptions;
    counts = i.counts;
    closed = i.closed;
    knows =
        All-keep (IsKnown r) (IsKnown (unsubscribe id r)) (λ h j. not (j == id)) t.subscriptions
          (λ g j l e k. k) i.knows;
    fresh = i.fresh;
    quiet = i.quiet;
  }
  op-Implements (closes h) r t i = elim (Bool-cases (r.disposed h)) [
    | inl shut ↦ rw (apply_op, close, shut) (closed-Implements h r t i shut)
    | inr live ↦ rw (apply_op, close, live) (silenced-Implements h r t i)
  ]
  op-Implements shuts_down r t i = record {
    listens = refl;
    counts = i.counts;
    closed = i.closed;
    knows = tt;
    fresh = i.fresh;
    quiet = i.quiet;
  }

  ops-Implements :
      (ops : List (Op L)) (r : Registry L) (t : Standing L)
      → Implements r t
      → Implements (apply_ops ops r) (stands ops t)
  ops-Implements [] r t i = i
  ops-Implements (op ∷ ops) r t i =
      ops-Implements ops (apply_op op r) (stand op t) (op-Implements op r t i)

  starts : Implements {L = L} no_listeners no_subscriptions
  starts = record {
    listens = refl;
    counts = refl;
    closed = λ h. refl;
    knows = tt;
    fresh = λ g id le. refl;
    quiet = λ h e. refl;
  }

  abbrev pub called : List Text → List (ℕ × ℕ × L) → List (L × List Text)
  called keys [] = []
  called keys ((h, id, l) ∷ ss) = (l, keys) ∷ called keys ss

  notified :
      (k : Text) (ks : List Text) (ss : List (ℕ × ℕ × L))
      → map (λ e. (e.1, k ∷ ks)) (map entry ss) ≡ called (k ∷ ks) ss
  notified k ks [] = refl
  notified k ks ((h, id, l) ∷ ss) = ap (◌∷◌ (l, k ∷ ks)) (notified k ks ss)

  -- After any calls of OnUpdate, of the functions it returned and of Close, one at a time, on the handles
  -- of a core, with its shutdown: an update of some keys calls, once each and with these keys, the
  -- listeners of the standing subscriptions, and no other. A subscription stands that was made with a
  -- listener through a handle that was open, until it is unsubscribed, its handle is closed or the core
  -- is shut down.
  pub notify_update_listeners-stands :
      (ops : List (Op L)) (key : Text) (keys : List Text)
      → notify_update_listeners (key ∷ keys) (apply_ops ops no_listeners)
        ≡ called (key ∷ keys) (stands ops no_subscriptions).subscriptions
  unfolding notify_update_listeners
  notify_update_listeners-stands ops key keys =
      ap (map (λ e. (e.1, key ∷ keys)))
        (ops-Implements ops no_listeners no_subscriptions starts).listens
      ∙ notified key keys (stands ops no_subscriptions).subscriptions
