-- ===== src/Zset.antt =====
-- The Redis sorted sets that the expiry queue uses: members with a score, in the order of the score
-- and, within a score, of the member.
use ticket_master.Prelude.{ℕ, Bool, ◌&&◌, ◌||◌, List, [], ◌∷◌, ◌==◌, ltb, leb, if◌then◌else◌}

abbrev pub Zset : Type 0
Zset = List (ℕ × ℕ)

-- ZREM
unfoldable pub zrem : ℕ → Zset → Zset
zrem m [] = []
zrem m ((j, s) ∷ z) = let rest = zrem m z in if j == m then rest else (j, s) ∷ rest

-- a stands before b
abbrev before : ℕ × ℕ → ℕ × ℕ → Bool
before a b = ltb a.1 b.1 || (a.1 == b.1 && leb a.0 b.0)

unfoldable pub insert : ℕ × ℕ → Zset → Zset
insert a [] = a ∷ []
insert a (b ∷ z) = let rest = insert a z in if before a b then a ∷ b ∷ z else b ∷ rest

-- ZADD: a member that is there gets the new score.
unfoldable pub zadd : ℕ → ℕ → Zset → Zset
zadd score m z = insert (m, score) (zrem m z)
