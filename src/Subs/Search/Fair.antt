-- ===== src/Subs/Search/Fair.antt =====
-- The turns in a group of a shared subscription.
use adaptive_mqtt_transmit_p.Common.{
  ℕ, suc, zero, Bool, List, [], ◌∷◌, ◌++◌, ◌≡◌, refl, sym, ap, ◌∙◌, length,
}
use mathlib.Core.List.{append-nil, append_assoc}
use adaptive_mqtt_transmit_p.Subs.Tree.{Leaf}
use adaptive_mqtt_transmit_p.Subs.Search.{serve_group}

module _ {S : Type 0} (send : Leaf → S → S × Bool) (skips : Leaf → S → Bool)
    (has_source : Bool) where
  -- As many messages for the group.
  unfoldable pub serve_rounds : ℕ → List Leaf → S → List Leaf × S
  serve_rounds zero leaves s = (leaves, s)
  serve_rounds (suc n) leaves s =
      let (leaves', s', failed) = serve_group send skips has_source leaves s in
      serve_rounds n leaves' s'

  -- One message for each subscription, in their order.
  unfoldable pub send_each : List Leaf → S → S
  send_each [] s = s
  send_each (leaf ∷ leaves) s = send_each leaves (send leaf s).0

  serve_rounds_front :
      (xs ys : List Leaf) (s : S)
      → serve_rounds (length xs) (xs ++ ys) s ≡ (ys ++ xs, send_each xs s)
  unfolding serve_rounds send_each serve_group
  serve_rounds_front [] ys s = rw (append-nil ys) refl
  serve_rounds_front (x ∷ xs) ys s =
      ap (λ l. serve_rounds (length xs) l (send x s).0) (append_assoc xs ys (x ∷ []))
      ∙ serve_rounds_front xs (ys ++ x ∷ []) (send x s).0
      ∙ ap (λ l. (l, send_each xs (send x s).0)) (append_assoc ys (x ∷ []) xs)

  -- As many messages as a group has subscriptions go to each of them once, in their order, and the
  -- group is then as it was.
  pub serve_rounds-each :
      (leaves : List Leaf) (s : S)
      → serve_rounds (length leaves) leaves s ≡ (leaves, send_each leaves s)
  serve_rounds-each leaves s =
      ap (λ l. serve_rounds (length leaves) l s) (sym (append-nil leaves))
      ∙ serve_rounds_front leaves [] s
