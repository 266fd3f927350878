-- ===== src/Lib.antt =====
-- MCM manages a Mosquitto MQTT broker: it stores access rules, users, listeners and certificates,
-- renders them into the broker's files, and observes the broker. This library models the parts of it
-- that decide things, over lists of bytes for Go's strings.
--
-- Text (with Text/Strings, Text/Runes, Text/Split, Text/Decimal and Text/Integer) holds the operations
-- of Go's standard library on strings: comparison, UTF-8 decoding as `range` does it, the spaces and
-- control characters of `unicode`, splitting, joining, trimming, and decimal numbers, of which an `int`
-- has 64 bits. Base has lists, tests, integers and results shared by all.
--
-- Acl models internal/acl. Acl/Rule has the type Rule with `EffectiveSelector`, `EffectiveScope` and
-- `Normalize`; a Go string type with named constants (Selector, Scope, Permission, Access) is a data
-- type with a constructor for each constant and one for every other text. Acl/Validate has
-- `ValidateRule` and its parts, with one constructor for each message; Acl/Version the comparison of
-- versions, in 64-bit arithmetic. Acl/Filter has `TopicMatchesFilter` and `FilterCovers`;
-- Acl/Effective `EffectivePermission` and `EffectiveGrants`; Acl/Store the MemoryStore of
-- internal/acl/store.go, whose methods run under one lock and so are functions from the store to a
-- result and the new store. `nextID` wraps at 2^64. Acl/Store/Reach has the stores that calls lead to,
-- and Acl/Store/Served the contract of the store: a function from ids to rules.
--
-- AclFile models internal/mosquitto/acldoc.go and acl.go, which read and write Mosquitto ACL files in
-- terms of these rules. AclFile/Entry reads one line, AclFile/Document a body, AclFile/Compose merges
-- managed rules into a document (`ComposeACLDocument`), and AclFile/Body has `RenderACLFile` and
-- `ParseACLFile`. A document's entries are read one after the
-- other, each in the section that the last user line opened.
--
-- Sparkplug models internal/sparkplug. Sparkplug/Topic has `ParseTopic`; Sparkplug/Metric the loop over
-- wire fields, Sparkplug/Fields `decodeMetric` and Sparkplug/Decode `DecodePayload`. The functions of
-- protowire, a library, are the record Wire, and IsWire states what they document: a tag takes a byte at
-- least, and nothing takes more bytes than there are. A slice out of range, on which Go panics, and
-- rounds that run out are errors of their own, which are never skipped.
--
-- Conf models internal/mosquitto/conf. Conf/Item has items, tokens and `parseDirectiveLine`; Conf/Parse
-- `Parse` on a string, with the lines of bufio.Scanner and its limit on their length; Conf/Render
-- `Render`. Conf/Blocks is about the nesting of blocks, Conf/Lossless about the round trip, with one
-- line of it in Conf/Lines; Text/Trim is about trimmed texts.
--
-- Passwd models internal/mosquitto/passwd.go: `HashPassword`, `VerifyPassword`, `RenderPasswdFile` and
-- `ParsePasswdFile`. The key derivation and base64 are libraries: the record Crypto, with what is
-- documented of them in IsCrypto. Passwd/Sorting is about the order of the entries.
--
-- Dynsec models internal/dynsec, which manages the broker's dynamic security plugin. Dynsec/Model has
-- the documents with clients, groups and roles, and Dynsec/Command the commands of protocol.go;
-- Dynsec/Updates and Dynsec/Plan `BuildPlan` and the loops that it calls. The plugin that runs the
-- commands is not in the repository: Dynsec/Effect says what each command is documented to do to a fact
-- of its database, Dynsec/Plugin has the plugin as an interface with these laws, and Dynsec/Run,
-- Dynsec/Reconcile and the modules below Dynsec/Plan follow a fact through a plan. Dynsec/Validate has
-- `Validate`, Dynsec/Guard `CheckControlChannel`, which goes by the text of the topics, and Dynsec/Verify `Verify`, whose maps are the tables
-- of Dynsec/Table. Dynsec/Protocol reads the plugin's answers, where encoding/json is the parameter
-- Json; Dynsec/Sort has their order. Dynsec/Service has `Read`, `Apply` and the retries over the
-- interface Transport, with the state of what is behind it as an argument, and Dynsec/Adapter `Do`, which
-- implements that interface over MQTT: what the MQTT library does in a call is its Environment. A
-- connection that is lost while `Do` waits sets a mark that is read in the next round only.
--
-- Deploy models the part of internal/deploy/acl_scope.go that decides which access files of single
-- listeners a deployment writes, removes and registers. Deploy/Registry has `recordManagedACLFiles` and
-- `restoreManagedACLFiles` over the interface ManagedACLFileStore, whose table is a parameter with the
-- laws IsFileStore of Deploy/Registry/Tracks; Deploy/Files `planACLFiles`, where reading a file is a
-- parameter, with what a plan has to be in Deploy/Files/Removals; Deploy/Wiring `scopeWiringIssues`.
--
-- Samples has runs, and the theorems at inputs that meet their hypotheses.
--
-- Fuel: `format_uint` makes at most twenty rounds, and a uint64 has at most twenty digits. The loops over
-- wire fields make at most as many rounds as there are bytes, and each round takes one. `readWithRetry`
-- reads four times at most, by its four rounds. The loop over the answers of the plugin is a recursion on
-- what happens while it waits, and still waits where that ends. Every other loop is a recursion on a list.
--
-- Not modelled: HTTP handlers, SQL storage, the rest of the deployment and the network protocols around
-- these parts, bridges, listeners and certificates; logging, time and the texts of errors. Of the facts
-- of the plugin's database, the members of the groups and the entries of the roles have no documented
-- effect here. `strings.ToLower` leaves letters above 127 as they are, except for the two whose lower
-- case is an ASCII letter, since its results are compared with ASCII words.
pub mod Acl
pub mod AclFile
pub mod Base
pub mod Conf
pub mod Deploy
pub mod Dynsec
pub mod Passwd
pub mod Samples
pub mod Sparkplug
pub mod Text
