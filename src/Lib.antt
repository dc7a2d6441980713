-- ===== src/Lib.antt =====
-- Models of Go-Warp-Scanner, a scanner for WireGuard endpoints that answer, and of the core logic of
-- the proxy library that stands in its tree (clash-meta; go.mod replaces the module by that folder).
--
-- Common: shared names, case lemmas, lists measured by native numbers, texts as lists of byte codes.
--
-- Scanner: wg-ping.go. Scanner/Inc is `inc`, Scanner/Cidr `getCidrIps` and the list of all addresses,
-- over `net.IPNet` with its two forms of IPv4 addresses (Scanner/Ip is `IP.To4`, Scanner/Cidr/Stop
-- says where the loop ends), Scanner/Url `urlToMetadata`, Scanner/Ping `pingWG`, Scanner/Average the
-- goroutine and the `select` of `worker`, Scanner/Pool the channels of `main` and the workers as
-- interleaved steps. `main` puts the addresses of the ranges on one channel; each worker takes one,
-- pings it several times through `pingWG`, and sends the average on the other.
--
-- Adapter: clash-meta/adapter/adapter.go (Adapter/Proxy: `URLTest`, with its deferred record, and the
-- delays read back) over clash-meta/common/queue/queue.go (Adapter/Queue).
--
-- CidrTrie: clash-meta/component/trie/ipcidr_node.go and ipcidr_trie.go. The file CidrTrie is the
-- nodes, insertion and search on groups; CidrTrie/Ranges is `subIpCidr`, `AddIpCidr` and `IsContain`
-- over them. A map of children is an association list.
--
-- Logic: clash-meta/rules/logic/logic.go. The file Logic is `Match` and `matchSubRules`, Logic/Parse
-- the parser of a payload and the constructors of the four rules.
--
-- BasicRules: clash-meta/rules/common (domain.go, domain_keyword.go, domain_suffix.go, ipcidr.go,
-- network_type.go, final.go, base.go; BasicRules/Suffix is ipsuffix.go, BasicRules/Ports port.go over
-- clash-meta/common/utils/range.go). `basic_methods` gives them to the logic rules.
--
-- DomainTrie: clash-meta/component/trie/domain.go and node.go. The file DomainTrie is the nodes,
-- `Insert`, `Search` and `optimize`; DomainTrie/Search and DomainTrie/Patterns say which data a search
-- finds and which hosts a pattern adds.
--
-- LruCache: clash-meta/common/cache/lrucache.go, with the linked list as a list of identities and
-- entries and the map from keys to identities. LruCache/Ideal is the list of entries that the cache
-- promises, LruCache/History the methods but `Clear` in any order, LruCache/Clear what `Clear` leaves.
--
-- Socks5: clash-meta/transport/socks5/socks5.go. The file Socks5 is the addresses and the packets,
-- Socks5/Handshake the two handshakes over a connection with the bytes of the other side, the bytes
-- written, and the number of writes that do not fail.
--
-- Tunnel: clash-meta/tunnel/tunnel.go, `preHandleMetadata`, `resolveMetadata` and `match`. The rules,
-- the proxies, the resolver and the search for processes are an environment; a proxy is given by what
-- `Unwrap` leads to, so that the loop over it ends. Tunnel/Match says which rule is taken, Tunnel/Fake
-- what becomes of fake addresses.
--
-- TlsSniffer: clash-meta/component/sniffer/tls_sniffer.go, `SniffTLS` and the stages of
-- `ReadClientHello`.
--
-- Groups: clash-meta/adapter/outboundgroup (Groups/UrlTest: urltest.go, Groups/Fallback: fallback.go,
-- Groups/LoadBalance: two strategies of loadbalance.go, Groups/Selector: selector.go), over references
-- to proxies whose state is that of Adapter/Proxy.
--
-- FakeIp: clash-meta/component/fakeip/pool.go, over a store given by its operations (`store` in the
-- source). FakeIp/Memory is the store in memory, memory.go, over two caches of LruCache;
-- FakeIp/Memory/History the pool over it after any lookups. FakeIp/Laws is the pool over a store that
-- is given by its laws.
--
-- Bounds and fuel. Bytes and 16-bit numbers are written with their wrap. The loop of `getCidrIps` runs
-- on fuel, one more than the number of addresses of the range being enough, and for the whole of IPv4
-- none is. `matchSubRules` runs on fuel for the depth of its calls; more than the rank of the list is
-- enough. The loops of TlsSniffer run on fuel for the bytes left, of which each round takes at least
-- three. The other loops are structural: over the labels, the elements of a list, or the bytes that
-- are left.
--
-- Parameters. `strings.ToLower` and `strings.ToUpper` are modelled on ASCII letters only, and leave
-- other bytes alone. The mask of a `net.IPNet` has as many bytes as its address, as `net.ParseCIDR`
-- makes it. The parsers of ranges and URLs, the HTTP client, the dialler and the clock of the standard
-- library, `netip`, the parsers of hosts and ports, the WireGuard adapter, the rules that a logic rule
-- is over, `parseRule`, and the jump hash are arguments.
--
-- Not modelled: console output, sockets, the protocol libraries, the configuration and its HTTP
-- service, the providers of the groups, sticky sessions, the rules that look up data files or the
-- operating system, the persisted fake addresses, `CloneTo` of the cache, DNS, and the sockets of the
-- tunnel.
mod Common
pub mod Scanner
pub mod Adapter
pub mod CidrTrie
pub mod Logic
pub mod FakeIp
pub mod Groups
pub mod BasicRules
pub mod DomainTrie
pub mod LruCache
pub mod Socks5
pub mod Tunnel
pub mod TlsSniffer
