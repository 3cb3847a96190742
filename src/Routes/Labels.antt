-- ===== src/Routes/Labels.antt =====
-- route_table.cpp, the label lists that a node broadcasts. Each is an array of `max_labels` entries;
-- an entry that no route fills has the invalid label.
use netcomm.Prelude.{ℕ, zero, suc, ◌^◌, ◌%◌, List, [], ◌∷◌, if◌then◌else◌, Map}
use netcomm.Types.{LabelInfo, LabelsSnapshot, no_label, max_labels}
use netcomm.Types.Words.{slt32}
use netcomm.Routes.{RouteTable}

-- The loop over the routes that fills the array from entry 0; `room` is the part of the array that
-- is left, so the loop stops at its end.
fill_labels {ℓ} : {R : Type ℓ} → (R → ℕ) → ℕ → Map R → List LabelInfo
fill_labels size zero routes = []
fill_labels size (suc room) [] = no_label ∷ fill_labels size room []
fill_labels size (suc room) ((label, route) ∷ routes) =
    record { label = label; size = size route % 2 ^ 32 } ∷ fill_labels size room routes

pub get_send_labels : RouteTable → List LabelInfo
unfolding fill_labels
get_send_labels t = fill_labels (λ r. r.label_size) max_labels t.send_routes

pub get_recv_labels : RouteTable → List LabelInfo
unfolding fill_labels
get_recv_labels t = fill_labels (λ r. r.label_size) max_labels t.recv_routes

insert_label : LabelInfo → List LabelInfo → List LabelInfo
insert_label x [] = x ∷ []
insert_label x (y ∷ ys) = if slt32 y.label x.label then y ∷ insert_label x ys else x ∷ y ∷ ys

-- `std::sort` by label. The labels of a map differ and unfilled entries are equal, so a sorted
-- array is determined by its entries.
pub sort_labels : List LabelInfo → List LabelInfo
unfolding insert_label
sort_labels [] = []
sort_labels (x ∷ xs) = insert_label x (sort_labels xs)

pub get_send_labels_sorted : RouteTable → List LabelInfo
unfolding sort_labels get_send_labels
get_send_labels_sorted t = sort_labels (get_send_labels t)

pub get_recv_labels_sorted : RouteTable → List LabelInfo
unfolding sort_labels get_recv_labels
get_recv_labels_sorted t = sort_labels (get_recv_labels t)

unfoldable pub get_send_labels_snapshot : RouteTable → LabelsSnapshot
unfolding get_send_labels_sorted
get_send_labels_snapshot t = record { gen = t.send_gen; labels = get_send_labels_sorted t }

unfoldable pub get_recv_labels_snapshot : RouteTable → LabelsSnapshot
unfolding get_recv_labels_sorted
get_recv_labels_snapshot t = record { gen = t.recv_gen; labels = get_recv_labels_sorted t }
