-- ===== src/Net/Publisher/Socket.antt =====
-- The constructor and the destructor of common/net/market_data_publisher.cpp.
use toy_exchange.Base.{
  ℕ, List, [], ◌∷◌, Option, none, some, Bool, true, if◌then◌else◌, Option-cases, inl, inr,
}
use toy_exchange.Extern.Kernel.{Kernel, IsKernel}
use toy_exchange.Net.Descriptors.{
  Held, start_held, close_fd, close_member, open_fd, open_fd-AreHeld, close_fd-AreHeld,
  start-AreHeld, IsAsBefore, AreHeld-IsAsBefore,
}

-- The calls of `setsockopt`, whose results are not looked at.
pub data SocketOption : Type 0 where
  multicast_ttl : ℕ → SocketOption
  multicast_interface : ℕ → SocketOption
  multicast_loop : Bool → SocketOption

-- `INADDR_LOOPBACK`, 127.0.0.1
abbrev pub loopback_address : ℕ
loopback_address = 2130706433

-- `destination_`
pub record Destination : Type 0 where
  pub port : ℕ
  pub address : ℕ

pub record MarketDataPublisher : Type 0 where
  pub socket_fd : Option ℕ
  pub destination : Destination
  pub options : List SocketOption

-- What the constructor sets on the socket; `is_local` is the template's `Local`.
abbrev pub options_for : Bool → List SocketOption
options_for is_local =
    multicast_ttl 1
    ∷ (if is_local then multicast_interface loopback_address ∷ multicast_loop true ∷ [] else [])

-- `inet_pton` reads the text of an address; `none` is a text that is none.
module _ (k : Kernel) (inet_pton : List ℕ → Option ℕ) where
  -- The descriptors, and the publisher unless the constructor throws.
  unfoldable pub construct : Bool → Held k → Bool → List ℕ → ℕ → Held k × Option MarketDataPublisher
  construct is_local h has_socket multicast_address port = elim (open_fd k h has_socket) [
    | none ↦ (h, none)
    | some (fd, h') ↦ elim (inet_pton multicast_address) [
      | none ↦ (close_fd k h' fd, none)
      | some address ↦ (
        h',
        some record {
          socket_fd = some fd;
          destination = record { port = port; address = address };
          options = options_for is_local;
        },
      )
    ]
  ]

  -- The destructor.
  abbrev pub destroy : Held k → MarketDataPublisher → Held k
  destroy h p = close_member k h p.socket_fd

  -- The scope of a publisher: a constructor that throws leaves nothing to destroy.
  abbrev pub leave_scope : Held k × Option MarketDataPublisher → Held k
  leave_scope (h, none) = h
  leave_scope (h, some p) = destroy h p

  module _ (laws : IsKernel k) where
    -- However the calls of the constructor succeed, after the publisher's scope the open
    -- descriptors are those of before, and `close` was never called on a descriptor that is not
    -- open.
    pub construct_released :
        (is_local : Bool) (files : k.Files) (has_socket : Bool) (address : List ℕ) (port : ℕ)
        → IsAsBefore k files
            (leave_scope (construct is_local (start_held k files) has_socket address port))
    unfolding construct
    construct_released is_local files has_socket address port =
        let start = start_held k files in
        elim (Option-cases (open_fd k start has_socket)) [
          | inl e ↦ rw (construct, e) (AreHeld-IsAsBefore k files start (start-AreHeld k files))
          | inr ((fd, h), e) ↦
              let held = open_fd-AreHeld k laws start has_socket fd h _ e (start-AreHeld k files) in
              let closed = AreHeld-IsAsBefore k files _ (close_fd-AreHeld k laws h fd _ held) in
              elim (Option-cases (inet_pton address)) [
                | inl invalid ↦ rw (construct, e, invalid) closed
                | inr (a, valid) ↦ rw (construct, e, valid) closed
              ]
        ]
