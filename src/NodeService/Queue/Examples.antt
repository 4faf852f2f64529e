-- ===== src/NodeService/Queue/Examples.antt =====
-- Two callers meet, and the placement of the first one ends.
use maelstrom.Prelude.{ℕ, String, [], ◌∷◌, Memᴰ, refl}
use maelstrom.NodeService.Queue.{Queue, empty_queue, arrive, finish, Reach}
use maelstrom.NodeService.Queue.Served.{finish_answers_all}

abbrev both : Queue String
both = arrive "web" 2 (arrive "web" 1 empty_queue)

abbrev both-Reach : Reach {A = String} ((2, "web") ∷ (1, "web") ∷ []) both
both-Reach = Reach.arrival "web" 2 (Reach.arrival "web" 1 Reach.start)

finish_answers_all_example :
    (a : String) × Memᴰ {A = ℕ × String} (2, a) (Queue.answers (finish "web" "placed" both))
finish_answers_all_example = finish_answers_all both-Reach 2 "web" "placed" (Memᴰ.head refl)
