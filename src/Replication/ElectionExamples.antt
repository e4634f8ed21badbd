-- ===== src/Replication/ElectionExamples.antt =====
-- Two followers whose leader has failed.
use streaming_platform.Prelude.{
  ◌≡◌, refl, Bool-cases, inl, inr, [], ◌∷◌, ℤ, pos, int_eq, insert, int_Key,
}
use streaming_platform.Text.{codes}
use streaming_platform.Config.{BrokerConfig, follower}
use streaming_platform.Groups.{contains}
use streaming_platform.Replication.{
  Manager, new_manager, first_heartbeats, fail_silent, maybe_elect_leader,
}
use streaming_platform.Replication.Election.{
  Election, maybe_elect_leader-Election, maybe_elect_leader-agree,
}

abbrev second : BrokerConfig
second = record {
  port = pos 9001;
  broker_id = pos 2;
  ip_address = codes "b";
  peers =
      record { broker_id = pos 1; host = codes "a"; port = pos 9000 }
      ∷ record { broker_id = pos 3; host = codes "c"; port = pos 9002 }
      ∷ [];
  data_directory = codes "data";
  type = follower;
  leader_broker_id = pos 1;
}

abbrev third : BrokerConfig
third = record second {
  broker_id = pos 3;
  peers =
      record { broker_id = pos 1; host = codes "a"; port = pos 9000 }
      ∷ record { broker_id = pos 2; host = codes "b"; port = pos 9001 }
      ∷ [];
}

abbrev without_leader : BrokerConfig → Manager
without_leader config = record (new_manager config 0) { failed_peers = pos 1 ∷ [] }

maybe_elect_leader-Election_example : Election 800 (without_leader second)
maybe_elect_leader-Election_example = maybe_elect_leader-Election 800 (without_leader second)

both_ways : (i : ℤ) → contains i (pos 3 ∷ pos 2 ∷ []) ≡ contains i (pos 2 ∷ pos 3 ∷ [])
both_ways i = elim (Bool-cases (int_eq (pos 2) i)) [
  | inl two ↦ elim (Bool-cases (int_eq (pos 3) i)) [
    | inl three ↦ rw (two, three) refl
    | inr not_three ↦ rw (two, not_three) refl
  ]
  | inr not_two ↦ elim (Bool-cases (int_eq (pos 3) i)) [
    | inl three ↦ rw (not_two, three) refl
    | inr not_three ↦ rw (not_two, not_three) refl
  ]
]

maybe_elect_leader-agree_example :
    (maybe_elect_leader 10 (without_leader second)).config.leader_broker_id
    ≡ (maybe_elect_leader 20 (without_leader third)).config.leader_broker_id
unfolding new_manager first_heartbeats fail_silent insert
maybe_elect_leader-agree_example =
    maybe_elect_leader-agree 10 20 (without_leader second) (without_leader third) refl refl
      both_ways
