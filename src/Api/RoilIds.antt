-- ===== src/Api/RoilIds.antt =====
-- get_roil_id of eROIL/src/rtos.h: the numbers that ROIL knows the nodes by.
use netcomm.Prelude.{ℕ, zero, suc, ◌||◌, List, [], ◌∷◌, if◌then◌else◌}
use netcomm.Types.{NodeId}
use netcomm.Types.Words.{slt32}

-- `iRoilNodeId` of the 20 nodes.
abbrev roil_node_ids : List ℕ
roil_node_ids =
    0x73703030 ∷ 0x73703031 ∷ 0x73703032 ∷ 0x73703033 ∷ 0x73703034 ∷ 0x73703035 ∷ 0x73703036
    ∷ 0x73703037 ∷ 0x73703038 ∷ 0x73703039 ∷ 0x73703130 ∷ 0x73703131 ∷ 0x73703132 ∷ 0x73703133
    ∷ 0x73703134 ∷ 0x73703135 ∷ 0x62703030 ∷ 0x62703031 ∷ 0x62703032 ∷ 0x64703031 ∷ []

at_index : List ℕ → ℕ → ℕ
at_index [] i = 0
at_index (x ∷ xs) zero = x
at_index (x ∷ xs) (suc i) = at_index xs i

unfoldable pub get_roil_id : NodeId → ℕ
unfolding at_index
get_roil_id id = if slt32 id 0 || slt32 19 id then 0 else at_index roil_node_ids id
