-- ===== src/Tasks/Forwarder/Prefix.antt =====
-- On crates/percept/src/forwarder.rs: what the hub sees of the forwarded events.
use Prim.Native.String
use percept.Prelude.{
  String, List, [], ◌∷◌, ◌++◌, map, Option, none, some, code, ◌≡◌, refl, ap, sym, ◌∙◌, some_inj,
  append_assoc, append-nil, subst,
}
use percept.Prelude.Text.{Avoids, split_once, split_once-append}
use percept.Core.Event.{Event}
use percept.Client.Event.{ClientEvent}
use percept.Client.Send.{ClientConfig}
use percept.Tasks.Loop.{Turn, received, tick, messages}
use percept.Tasks.Loop.Drained.{Tracks, Drained, run-Drained}
use percept.Tasks.Forwarder.{
  ForwarderConfig, Uplink, dot, to_client_event, add_trace_id, add_producer_id, flush, task,
  converted, run_forwarder,
}

add_source :
    (trace producer : Option String) (out : ClientEvent)
    → (add_producer_id producer (add_trace_id trace out)).source_id ≡ out.source_id
add_source none none out = refl
add_source none (some p) out = refl
add_source (some t) none out = refl
add_source (some t) (some p) out = refl

to_client_event-source_id :
    (peer_id : String) (e : Event)
    → (to_client_event peer_id e).source_id ≡ String.◌++◌ peer_id (String.◌∷◌ dot e.source_id)
unfolding to_client_event percept.Client.Event.new
to_client_event-source_id peer_id e = add_source e.trace_id e.producer_id _

-- Edges whose names have no dot do not collide at the hub: the name of a forwarded event's source
-- determines the edge and the source's own name there.
pub to_client_event-injective :
    (p q : String) (a b : Event)
    → Avoids (code dot) p
    → Avoids (code dot) q
    → (to_client_event p a).source_id ≡ (to_client_event q b).source_id
    → (p ≡ q) × (a.source_id ≡ b.source_id)
to_client_event-injective p q a b hp hq e =
    let both : some (p, a.source_id) ≡ some (q, b.source_id) =
      sym (split_once-append dot p a.source_id hp)
      ∙ ap (split_once (code dot))
          (sym (to_client_event-source_id p a) ∙ e ∙ to_client_event-source_id q b)
      ∙ split_once-append dot q b.source_id hq in
    let same = some_inj both in (ap (λ x. x.0) same, ap (λ x. x.1) same)

converted-messages :
    (peer_id : String) (turns : List (Turn Event))
    → messages (converted peer_id turns) ≡ map (to_client_event peer_id) (messages turns)
converted-messages peer_id [] = refl
converted-messages peer_id (received e ∷ turns) =
    ap (◌∷◌ (to_client_event peer_id e)) (converted-messages peer_id turns)
converted-messages peer_id (tick ∷ turns) = converted-messages peer_id turns

abbrev pub Logged : List (List ClientEvent) → List (List ClientEvent) → Uplink → Type 0
Logged before batches u = u.sent ≡ before ++ batches

-- Once its channel is closed, the forwarder has handed every event that it received to the client once,
-- under the edge's prefix and in order, in batches of the configured size at most (1 if that is 0) and
-- none empty, whatever the hub answers.
pub run_forwarder-Drained :
    (config : ForwarderConfig) (client : ClientConfig) (encode : List ClientEvent → Option String)
    (u : Uplink) (turns : List (Turn Event))
    → Drained config.batch_size
        (Logged u.sent)
        (map (to_client_event config.peer_id) (messages turns))
        (run_forwarder config client encode u turns)
unfolding run_forwarder flush
run_forwarder-Drained config client encode u turns =
    let tracks : Tracks (task config client encode) (Logged u.sent) = record {
      noted = λ batches n s h. h;
      flushed = λ batches batch s h.
          ap (λ xs. xs ++ batch ∷ []) h ∙ append_assoc u.sent batches (batch ∷ []);
    } in
    subst
      (λ all.
        Drained config.batch_size (Logged u.sent) all (run_forwarder config client encode u turns))
      (converted-messages config.peer_id turns)
      (run-Drained (task config client encode) (Logged u.sent) tracks
        (converted config.peer_id turns) u (sym (append-nil u.sent)))
