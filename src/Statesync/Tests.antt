-- ===== src/Statesync/Tests.antt =====
-- Runs of internal/statesync.
use gosh.Base.{equal, List, [], ◌∷◌, ◌≡◌, refl, ok, arith, false}
use gosh.Base.Int.{pos}
use gosh.Wire.Messages.{UserEvent, keys_event, resize_event, unmarshal_user_message}
use gosh.Statesync.UserStream.{push_keys, push_resize, coalesce, diff_from, stream_equal}
use gosh.Statesync.Diff.{key, sized, expand, diff_from-append}

coalesced :
    coalesce [] (
      (push_keys
        (push_resize (push_keys (record { events = [] }) (1 ∷ 2 ∷ [])) (pos 80) (pos 24))
        (3 ∷ [])).events)
    ≡ keys_event (1 ∷ 2 ∷ []) ∷ resize_event (pos 80) (pos 24) ∷ keys_event (3 ∷ []) ∷ []
unfolding coalesce push_keys push_resize
coalesced = refl

differs :
    stream_equal
      (record { events = keys_event (1 ∷ []) ∷ [] })
      (record { events = keys_event (2 ∷ []) ∷ [] })
    ≡ false
unfolding stream_equal equal
differs = refl

diff_from-append_example :
    (evs : List UserEvent) × (unmarshal_user_message (
        diff_from
          (record {
            events =
                keys_event (9 ∷ []) ∷ (keys_event (1 ∷ []) ∷ resize_event (pos 80) (pos 24) ∷ []);
          })
          (record { events = keys_event (9 ∷ []) ∷ [] }))
      ≡ ok evs)
    × (expand evs ≡ keys_event (1 ∷ []) ∷ resize_event (pos 80) (pos 24) ∷ [])
diff_from-append_example =
    diff_from-append (keys_event (9 ∷ []) ∷ [])
      (keys_event (1 ∷ []) ∷ resize_event (pos 80) (pos 24) ∷ [])
      (key 1, (sized (pos 80) (pos 24) (omega arith) (omega arith), tt)) (omega arith)
