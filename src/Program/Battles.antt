-- ===== src/Program/Battles.antt =====
-- programs/tickersix/src/lib.rs: the entry points on battles, against the ledger.
use tickersix.Base.{ℕ, List, Option, some, none}
use tickersix.Errors.{Result, ok, ◌>>=◌}
use tickersix.Runtime.{Key, Runtime, Clock, Account}
use tickersix.State.{Battle, MarketRound}
use tickersix.Battle.Create.{BattleArgs, create_rated_battle}
use tickersix.Battle.Lineup.{commit_lineup, reveal_lineup}
use tickersix.Battle.Settle.{settle_side_score, finalize_battle}
use tickersix.Battle.Close.{
  cancel_uncommitted_battle, finalize_forfeit, void_battle_if_price_unavailable,
  void_battle_for_system_incident,
}
use tickersix.Store.{load, update, insert, fresh}
use tickersix.Program.Ledger.{Ledger, infos}

-- `Option<Account>`: an account that the caller names must exist.
abbrev pub load_optional {ℓ} :
    {A : Type ℓ} → Option Key → List (Account A) → Result (Option (Account A))
load_optional none xs = ok none
load_optional (some k) xs = load k xs >>= λ a. ok (some a)

module _ (rt : Runtime) (clock : Clock) (l : Ledger) where
  unfoldable pub run_create :
      (coordinator round player_a player_b : Key) (league member_a member_b : Option Key)
      (battle slot_a slot_b : Key)
      → BattleArgs
      → Result Ledger
  run_create coordinator round player_a player_b league member_a member_b battle slot_a slot_b
        args =
      do
        r ← load round l.rounds
        la ← load_optional league l.leagues
        ma ← load_optional member_a l.members
        mb ← load_optional member_b l.members
        c ←
            create_rated_battle rt clock
              (record {
                config = l.config;
                coordinator = coordinator;
                market_round = r;
                player_a = player_a;
                player_b = player_b;
                league_account = la;
                league_member_a = ma;
                league_member_b = mb;
                battle = fresh battle l.battles;
                rated_slot_a = fresh slot_a l.rated_slots;
                rated_slot_b = fresh slot_b l.rated_slots;
              })
              args
        ok (record l {
          rounds = update round c.market_round l.rounds;
          battles = insert battle c.battle l.battles;
          rated_slots = insert slot_a c.rated_slot_a (insert slot_b c.rated_slot_b l.rated_slots);
        })

  -- An instruction that changes one battle.
  unfoldable pub on_battle :
      Key → Key → (Account Battle → Account MarketRound → Result Battle) → Result Ledger
  on_battle battle round instruction = do
    b ← load battle l.battles
    r ← load round l.rounds
    b' ← instruction b r
    ok (record l { battles = update battle b' l.battles })

  -- An instruction that closes a battle and counts it in its round.
  unfoldable pub on_battle_and_round :
      Key
      → Key
      → (Account Battle → Account MarketRound → Result (Battle × MarketRound))
      → Result Ledger
  on_battle_and_round battle round instruction = do
    b ← load battle l.battles
    r ← load round l.rounds
    w ← instruction b r
    ok (record l { battles = update battle w.0 l.battles; rounds = update round w.1 l.rounds })

  unfoldable pub run_commit : (battle round player commitment : Key) → Result Ledger
  unfolding on_battle
  run_commit battle round player commitment = on_battle battle round λ b r.
      commit_lineup rt clock
        (record { config = l.config; battle = b; market_round = r; player = player }) commitment

  unfoldable pub run_reveal : (battle round player : Key) → List ℕ → ℕ → Key → Result Ledger
  unfolding on_battle
  run_reveal battle round player ids captain salt = on_battle battle round λ b r.
      reveal_lineup rt clock (record { battle = b; market_round = r; player = player }) ids captain
        salt

  unfoldable pub run_settle : (battle round : Key) → List Key → ℕ → Result Ledger
  unfolding on_battle infos
  run_settle battle round keys side_index =
      on_battle battle round λ b r. settle_side_score rt b r (infos rt l keys) side_index

  unfoldable pub run_finalize : (battle round : Key) → Result Ledger
  unfolding on_battle_and_round
  run_finalize battle round = on_battle_and_round battle round (finalize_battle rt clock)

  unfoldable pub run_cancel : (coordinator battle round : Key) → Result Ledger
  unfolding on_battle_and_round
  run_cancel coordinator battle round =
      on_battle_and_round battle round (cancel_uncommitted_battle rt clock l.config coordinator)

  unfoldable pub run_forfeit : (battle round : Key) → Result Ledger
  unfolding on_battle_and_round
  run_forfeit battle round = on_battle_and_round battle round (finalize_forfeit rt clock)

  unfoldable pub run_void_price : (battle round : Key) → List Key → Result Ledger
  unfolding on_battle_and_round infos
  run_void_price battle round keys =
      on_battle_and_round battle round
        λ b r. void_battle_if_price_unavailable rt clock b r (infos rt l keys)

  unfoldable pub run_void_system : (coordinator battle round : Key) → Result Ledger
  unfolding on_battle_and_round
  run_void_system coordinator battle round =
      on_battle_and_round battle round
        (void_battle_for_system_incident rt clock l.config coordinator)
