-- ===== src/Connector/Tests.antt =====
-- Runs of the connector.
use agent_chat.Prelude.{ℕ, ◌≡◌, refl, none, some, [], ◌∷◌, Str, str_eq, Option}
use agent_chat.Connector.{
  Connector, begin_connect, finish_connect, begin_disconnect, unsubscribe, deliver, drain, provider,
}
use agent_chat.Connector.System.{
  dialing, hanging_up, pumping, System, reserves, dial_succeeds, starts_hanging_up, new_connector,
  Reach, start, later,
}
use agent_chat.Connector.System.Slots.{Consistent}
use agent_chat.Connector.System.Safety.{CanGo, Reach-Consistent, Reach-CanGo}
use agent_chat.Connector.System.Panics.{fan_out_safe}

abbrev bot : Str
bot = 7 ∷ []

abbrev idle : System ℕ
idle = record { conn = new_connector; tasks = [] }

abbrev dialed : System ℕ
unfolding begin_connect
dialed = record { conn = (begin_connect bot new_connector).1; tasks = dialing bot ∷ [] }

abbrev up : System ℕ
unfolding begin_connect finish_connect
up = record { conn = (finish_connect bot 4 dialed.conn).1; tasks = pumping bot 0 ∷ [] }

abbrev going_down : System ℕ
unfolding begin_connect finish_connect begin_disconnect
going_down = record {
  conn = (begin_disconnect bot up.conn).1;
  tasks = hanging_up bot 0 ∷ pumping bot 0 ∷ [];
}

reached : Reach going_down
unfolding begin_connect finish_connect begin_disconnect str_eq
reached =
    later
      (later (later start (reserves bot 0 refl refl)) (
        dial_succeeds bot 4 0 refl
          (record { before = []; after = []; was = refl; becomes = refl })))
      (starts_hanging_up bot 0 refl refl)

Reach-Consistent_example : Consistent going_down.conn going_down.tasks
Reach-Consistent_example = Reach-Consistent going_down reached

Reach-CanGo_example : CanGo dialed (dialing bot)
unfolding begin_connect
Reach-CanGo_example =
    Reach-CanGo dialed (dialing bot) [] [] (later start (reserves bot 0 refl refl)) refl

fan_out_safe_example :
    ((a : Str) (ev : ℕ) → (c : Connector ℕ) × (deliver a ev going_down.conn ≡ some c))
    × ((a : Str) → (c : Connector ℕ) × (drain a going_down.conn ≡ some c))
    × ((o : Option ℕ) → (c : Connector ℕ) × (unsubscribe o going_down.conn ≡ some c))
fan_out_safe_example = fan_out_safe going_down reached

-- Only an online account has a provider.
up_provider : provider bot up.conn ≡ some 4
unfolding begin_connect finish_connect provider str_eq
up_provider = refl

going_down_provider : provider bot going_down.conn ≡ none
unfolding begin_connect finish_connect begin_disconnect provider str_eq
going_down_provider = refl
