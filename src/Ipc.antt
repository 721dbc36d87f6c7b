-- ===== src/Ipc.antt =====
-- Message queues between processes, kernel/src/ipc/ipc.c and include/kernel/ipc.h. A node is a
-- `struct ipc_message_node`: its links stand at its own address. `hang` is a call of the allocator
-- that does not return, `overrun` a copy past the size that was allocated.
pub mod Inv
pub mod Send
pub mod Receive
pub mod Traffic
mod Tests
use svetos_kernel.Base.{
  ℕ, zero, suc, ◌+◌, ◌*◌, ◌/◌, ◌<◌, Bool, true, false, ◌&&◌, Option, none, some, List, [], ◌∷◌, ltb,
  leb, ◌==◌, if◌then◌else◌, add32, take,
}
use svetos_kernel.Allocator.{Ptr, null, Allocator}
use svetos_kernel.Dll.{Links, init_list_head, list_add_tail, list_del, list_empty}

-- `ipc_message_t`
pub record Message : Type 0 where
  pub from_pid : ℕ
  pub to_pid : ℕ
  pub type : ℕ
  pub size : ℕ
  pub bytes : List ℕ

abbrev pub type_system : ℕ
type_system = 0

abbrev pub type_data : ℕ
type_data = 1

abbrev pub type_command : ℕ
type_command = 2

-- `get_current_pid` of kernel/src/scheduler.c and include/kernel/ipc.h
unfoldable pub get_current_pid : ℕ
get_current_pid = 0

-- `sizeof(struct ipc_message_node)`: two pointers and four words
abbrev pub node_header : ℕ
node_header = 24

pub data Outcome {ℓ} (A : Type ℓ) : Type ℓ where
  done : A → Outcome A
  hang overrun : Outcome A

abbrev pub map_done {ℓ κ} : {A : Type ℓ} {B : Type κ} → (A → B) → Outcome A → Outcome B
map_done f (done a) = done (f a)
map_done f hang = hang
map_done f overrun = overrun

-- What a receiver gets: the result, and what goes through the pointers that are not null.
pub record Reply : Type 0 where
  pub result : ℕ
  pub from_pid : Option ℕ
  pub type : Option ℕ
  pub buffer : Option (List ℕ)

abbrev pub nothing : Reply
nothing = record { result = 0; from_pid = none; type = none; buffer = none }

-- which of the out-pointers are not null
pub record Pointers : Type 0 where
  pub from_pid : Bool
  pub type : Bool
  pub buffer : Bool

abbrev pub when {ℓ} : {A : Type ℓ} → Bool → A → Option A
when b a = if b then some a else none

-- the branches of the `switch` of `ipc_process_messages`, with what each prints
pub data Report : Type 0 where
  system : (from : ℕ) (bytes : List ℕ) → Report
  payload : (from size : ℕ) → Report
  command : (from : ℕ) (bytes : List ℕ) → Report
  unknown : (type from : ℕ) → Report

pub report : Message → Report
report msg =
    if msg.type == type_system
    then system msg.from_pid msg.bytes
    else if msg.type == type_data
    then payload msg.from_pid msg.size
    else if msg.type == type_command
    then command msg.from_pid (take 4 msg.bytes)
    else unknown msg.type msg.from_pid

-- `message_queues` stands at `base`; a `struct list_head` takes 8 bytes.
module _ (A : Allocator) (base : Ptr) where
  open A use {State, kmalloc, kfree}

  pub record Ipc : Type 0 where
    pub links : Links
    pub message : Ptr → Message
    pub heap : State

  abbrev pub queue : ℕ → Ptr
  queue pid = base + 8 * pid

  -- the loop of `ipc_init` at index `i`, with `left` rounds to go
  unfoldable pub init_from : ℕ → ℕ → Links → Links
  init_from zero i s = s
  init_from (suc left) i s = init_from left (i + 1) (init_list_head (queue i) s)

  unfoldable pub ipc_init : Ipc → Ipc
  unfolding init_from
  ipc_init s = record s { links = init_from 32 0 s.links }

  -- fills the node and puts it behind the receiver's queue
  unfoldable pub enqueue : Ptr → Message → State → Ipc → Ipc
  enqueue node msg heap s = record {
    links = list_add_tail node (queue msg.to_pid) (init_list_head node s.links);
    message = λ p. if p == node then msg else s.message p;
    heap = heap;
  }

  -- the size to which `kmalloc` rounds a request up, in 32 bits
  abbrev pub block_room : ℕ → ℕ
  block_room n = add32 n 7 / 8 * 8

  unfoldable pub send_in : Option (Ptr × State) → Message → Ipc → Outcome (ℕ × Ipc)
  unfolding enqueue
  send_in none msg s = hang
  send_in (some (node, heap)) msg s =
      if node == null
      then done (0, record s { heap = heap })
      else if ltb (block_room (add32 node_header msg.size)) (node_header + msg.size)
      then overrun
      else done (1, enqueue node msg heap s)

  -- `buf` is the memory behind `data`, of which `size` bytes are copied.
  unfoldable pub ipc_send : (to_pid : ℕ) (buf : List ℕ) (size type : ℕ) → Ipc → Outcome (ℕ × Ipc)
  unfolding send_in
  ipc_send to_pid buf size type s =
      if leb 32 to_pid
      then done (0, s)
      else send_in (kmalloc (add32 node_header size) s.heap)
          (record {
            from_pid = get_current_pid;
            to_pid = to_pid;
            type = type;
            size = size;
            bytes = take size buf;
          })
          s

  -- unlinks the first node of a queue and frees it
  unfoldable pub drop_first : Ptr → Ipc → Outcome Ipc
  drop_first node s = elim (kfree node s.heap) [
    | none ↦ hang
    | some heap ↦ done (record s { links = list_del node s.links; heap = heap })
  ]

  unfoldable pub reply_to : Pointers → ℕ → Message → Reply
  reply_to ptrs size msg =
      let copy_size = if ltb size msg.size then size else msg.size in
      record {
        result = copy_size;
        from_pid = when ptrs.from_pid msg.from_pid;
        type = when ptrs.type msg.type;
        buffer = when (ltb 0 copy_size && ptrs.buffer) (take copy_size msg.bytes);
      }

  -- `ipc_receive` run by the process `pid`
  unfoldable pub receive_as : ℕ → Pointers → ℕ → Ipc → Outcome (Reply × Ipc)
  receive_as pid ptrs size s =
      if leb 32 pid
      then done (nothing, s)
      else if list_empty (queue pid) s.links
      then done (nothing, s)
      else (let node = s.links.next (queue pid) in
          map_done (λ s'. (reply_to ptrs size (s.message node), s')) (drop_first node s))

  unfoldable pub ipc_receive : Pointers → ℕ → Ipc → Outcome (Reply × Ipc)
  unfolding receive_as
  ipc_receive = receive_as get_current_pid

  -- `ipc_process_messages` run by the process `pid`; it handles one message at most
  unfoldable pub process_as : ℕ → Ipc → Outcome (Option Report × Ipc)
  process_as pid s =
      if leb 32 pid
      then done (none, s)
      else if list_empty (queue pid) s.links
      then done (none, s)
      else (let node = s.links.next (queue pid) in
          map_done (λ s'. (some (report (s.message node)), s')) (drop_first node s))

  unfoldable pub ipc_process_messages : Ipc → Outcome (Option Report × Ipc)
  unfolding process_as
  ipc_process_messages = process_as get_current_pid
