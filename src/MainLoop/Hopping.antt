-- ===== src/MainLoop/Hopping.antt =====
-- The timer of the channel hopping (user/src/main.c).
use wifi_sniffer.Prelude.{
  suc, ◌+◌, ◌-◌, ◌%◌, ◌<◌, ◌≡◌, ap, true, List, [], ◌∷◌, length, arith, subst, sym,
}
use wifi_sniffer.Channel.{channels_count, next_channel}
use wifi_sniffer.MainLoop.{Loop, Input, hop, hop_time}

-- The loop after some rounds of the timer.
pub hop_rounds : List Input → Loop → Loop
hop_rounds [] l = l
hop_rounds (inp ∷ inps) l = hop_rounds inps ((hop inp l).0)

hop_waits :
    (inp : Input) (l : Loop)
    → l.hopping ≡ true
    → 0 < l.hop_timer
    → hop inp l ≡ (record l { hop_timer = l.hop_timer - 1 }, [])
unfolding hop
hop_waits inp l h b = ground arith

hop_fires :
    (inp : Input) (l : Loop)
    → l.hopping ≡ true
    → l.hop_timer ≡ 0
    → ((hop inp l).0.hop_timer ≡ hop_time)
      × ((hop inp l).0.channel ≡ (l.channel + 1) % channels_count)
unfolding hop next_channel
hop_fires inp l h b = ground arith

-- With hopping switched on and the timer at `n`, over the next `n + 1` rounds of the timer the
-- channel moves on by exactly one, and the timer stands at `hop_time` again.
pub hop_rounds_lem :
    (inps : List Input) (l : Loop)
    → l.hopping ≡ true
    → length inps ≡ suc l.hop_timer
    → ((hop_rounds inps l).hop_timer ≡ hop_time)
      × ((hop_rounds inps l).channel ≡ (l.channel + 1) % channels_count)
unfolding hop_rounds
hop_rounds_lem [] l h b = absurd (omega arith)
hop_rounds_lem (inp ∷ []) l h b = hop_fires inp l h (omega arith)
hop_rounds_lem (inp ∷ inp' ∷ inps) l h b =
    subst
      (λ l'.
        ((hop_rounds (inp' ∷ inps) l').hop_timer ≡ hop_time)
        × ((hop_rounds (inp' ∷ inps) l').channel ≡ (l.channel + 1) % channels_count))
      (sym (ap (λ r. r.0) (hop_waits inp l h (omega arith))))
      (hop_rounds_lem (inp' ∷ inps) (record l { hop_timer = l.hop_timer - 1 }) h (omega arith))
