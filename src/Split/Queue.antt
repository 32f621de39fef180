-- ===== src/Split/Queue.antt =====
-- The two queues of split.c: data for the upper layer, and frames for the link.
use ipcf.Common.{ℕ, ◌-◌, Option, none, some, List, [], ◌∷◌, ◌++◌, length, take, leb, if◌then◌else◌}
use ipcf.Split.Types.{link_mtu, Node}

-- The data of a new `data_node_t`: `len` bytes of an array, at most LINK_MTU.
unfoldable pub data_node : List ℕ → ℕ → List ℕ
data_node buf len = take (if leb len link_mtu then len else link_mtu) buf

unfoldable pub put_upper_recv_list : List ℕ → ℕ → Node → Node
unfolding data_node
put_upper_recv_list buf len n = record n {
  upper_recv_list = n.upper_recv_list ++ (data_node buf len ∷ []);
}

unfoldable pub put_lower_send_list : List ℕ → ℕ → Node → Node
unfolding data_node
put_lower_send_list buf len n = record n {
  lower_send_list = n.lower_send_list ++ (data_node buf len ∷ []);
}

-- What a call returns, and the bytes stored in `buf`, whose number is the new `*len`.
pub record Fetched : Type 0 where
  -- `none` is -1.
  pub ret : Option ℕ
  pub buf : List ℕ
  pub rest : List (List ℕ)

-- `upper_recv` on the queue, with room for `cap` bytes: the rest of a longer node is dropped.
unfoldable pub upper_recv_queue : List (List ℕ) → ℕ → Fetched
upper_recv_queue [] cap = record { ret = none; buf = []; rest = [] }
upper_recv_queue (r ∷ rest) cap =
    let len = if leb (length r) cap then length r else cap in
    record { ret = some (length r - len); buf = take len r; rest = rest }

unfoldable pub upper_recv : Node → ℕ → Fetched × Node
unfolding upper_recv_queue
upper_recv n cap =
    let r = upper_recv_queue n.upper_recv_list cap in (r, record n { upper_recv_list = r.rest })

-- `lower_fetch` on the queue: a node that does not fit is dropped whole.
unfoldable pub lower_fetch_queue : List (List ℕ) → ℕ → Fetched
lower_fetch_queue [] cap = record { ret = some 0; buf = []; rest = [] }
lower_fetch_queue (s ∷ rest) cap =
    if leb (length s) cap
    then record { ret = some 0; buf = take (length s) s; rest = rest }
    else record { ret = none; buf = []; rest = rest }

unfoldable pub lower_fetch : Node → ℕ → Fetched × Node
unfolding lower_fetch_queue
lower_fetch n cap =
    let r = lower_fetch_queue n.lower_send_list cap in (r, record n { lower_send_list = r.rest })

-- What is in the queues, for debugging.
unfoldable pub get_urq_num : Node → ℕ
get_urq_num n = length n.upper_recv_list

unfoldable pub get_lsq_num : Node → ℕ
get_lsq_num n = length n.lower_send_list

-- A loop of `split_cleanup`: each node is taken from its list, and freed.
unfoldable pub free_nodes : List (List ℕ) → List (List ℕ)
free_nodes [] = []
free_nodes (d ∷ rest) = free_nodes rest

-- The sessions stay, with the packets in their lists.
unfoldable pub split_cleanup : Node → Node
unfolding free_nodes
split_cleanup n = record n {
  upper_recv_list = free_nodes n.upper_recv_list;
  lower_send_list = free_nodes n.lower_send_list;
}
