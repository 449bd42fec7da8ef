-- ===== src/Cluster/ListenerTests.antt =====
-- A run of a listener over two others, and the theorem at it.
use casbin_mesh.Prelude.{◌+◌, ◌≡◌, refl, [], ◌∷◌, List, nat_eq, Str, str, some, arith, list_beq}
use casbin_mesh.Result.{Result, ok}
use casbin_mesh.Cluster.Listener.{
  Listener, listener, serving, shutting, shut, Event, arrived, accepted, closing, closed, dropped,
  Run, still, then_step, arrives, accepts, closes, closes_all, drops, new_listener, came, left,
  held_count, held_of, goroutines, new_listener-conserves,
}

abbrev events : List Event
events = arrived 7 ∷ (closing ∷ (arrived 8 ∷ (accepted 8 ∷ (closed ∷ (dropped 7 ∷ [])))))

abbrev after_close : Listener
after_close = listener 1 [] 1 shut

-- Two connections come, the second between the two parts of `Close`; it is still accepted, and the
-- first is dropped.
a_run : Run (listener 2 [] 0 serving) events after_close
a_run =
    then_step (listener 2 [] 0 serving) (listener 1 (7 ∷ []) 0 serving) after_close (arrived 7) _
      (arrives 1 [] 0 7 serving (λ h. ground (arith, h)))
      (then_step (listener 1 (7 ∷ []) 0 serving) (listener 1 (7 ∷ []) 0 shutting) after_close
        closing _ (closes 1 (7 ∷ []) 0)
        (then_step (listener 1 (7 ∷ []) 0 shutting) (listener 0 (8 ∷ (7 ∷ [])) 0 shutting)
          after_close (arrived 8) _ (arrives 0 (7 ∷ []) 0 8 shutting (λ h. ground (arith, h)))
          (then_step (listener 0 (8 ∷ (7 ∷ [])) 0 shutting) (listener 1 (7 ∷ []) 0 shutting)
            after_close (accepted 8) _ (accepts 0 (8 ∷ (7 ∷ [])) [] (7 ∷ []) 0 8 shutting refl)
            (then_step (listener 1 (7 ∷ []) 0 shutting) (listener 1 (7 ∷ []) 0 shut) after_close
              closed _ (closes_all 1 (7 ∷ []) 0)
              (then_step (listener 1 (7 ∷ []) 0 shut) after_close after_close (dropped 7) []
                (drops 1 (7 ∷ []) [] [] 0 7 shut (λ h. ground (arith, h)) refl)
                (still after_close))))))

abbrev resolve : Str → Result Str
resolve address = ok address

new_listener-conserves_example :
    (came 7 events ≡ left 7 events + held_count 7 (held_of after_close))
    × (goroutines after_close ≡ 2)
unfolding new_listener list_beq
new_listener-conserves_example =
    new_listener-conserves resolve 7 2 (str "10.0.0.1:80") (some (str "10.0.0.1:80")) refl a_run
