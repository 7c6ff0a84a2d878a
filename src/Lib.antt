-- ===== src/Lib.antt =====
-- go-wsman: a WS-Management client (wsman/) and the Hyper-V bindings over it (hyperv/).
--
-- The package wsman builds SOAP requests, sends them over HTTP and reads the answers; the package
-- hyperv turns the calls of a program into such requests, sends Go structs as embedded CIM
-- instances, reads CIM instances into structs, and waits for the asynchronous jobs of the host.
--
-- Common: what both packages share. Common/Text has byte strings and the functions of the Go package
-- strings that the code calls; Common/Decimal those of strconv; Common/Props the property maps and
-- the placeholder of NULL values; Common/Xml the tokens of encoding/xml; Common/Utf8 the characters
-- of a text and those that XML allows; Common/Results the (value, error) results.
--
-- Wsman/Instances: wsman/enumerate.go and wsman/get.go, the readers of CIM instances
--   (parseInstances, extractProperties, Instance.Property, resolveNullPlaceholders).
-- Wsman/Transport: wsman/transport.go, the retry loop of HTTPTransport.Send and sendOnce.
-- Wsman/Pool: wsman/pool.go, the slots of pooledTransport as a step relation.
-- Wsman/Enumeration: wsman/client.go, the pull loop of Client.Enumerate.
-- Wsman/Client: wsman/client.go, the options of a client (Wsman/Client) and NewClient with
--   attachRecorder of wsman/record.go (Wsman/Client/Construction), and NewPooledClient of
--   wsman/pool.go on top of it (Wsman/Client/Pooled).
-- Wsman/Recorder: wsman/record.go, the anonymizer; Wsman/Recorder/Patterns has the regular
--   expressions, Wsman/Recorder/Scrub the passes of scrub, Wsman/Recorder/Files and
--   Wsman/Recorder/Recording the recorded files, from write to StopRecording.
-- Wsman/Envelope: wsman/envelope.go, and its XML by the struct tags in Wsman/Envelope/Wire.
-- Wsman/Requests: the builders of wsman/get.go, put.go, create.go, delete.go and invoke.go.
-- Wsman/Responses: their readers, with wsman/fault.go; Wsman/Output: PropertyEPR of wsman/invoke.go.
-- Hyperv/CimTag: hyperv/cimtag.go, struct tags and the conversion of durations.
-- Hyperv/Fields: hyperv/unmarshal.go, UnmarshalList on structs as lists of fields.
-- Hyperv/Types: hyperv/types.go, the structs of the CIM classes.
-- Hyperv/Embedded: hyperv/embedded.go, marshalEmbeddedInstance, and parseEmbeddedInstance in
--   Hyperv/Embedded/Parse.
-- Hyperv/Epr: hyperv/epr.go, WMI object paths and endpoint references.
-- Hyperv/Server: the boundary between the packages: requests (Client.Invoke, Enumerate, Get of
--   wsman), the answers of a host, and operations that stop at the first error.
-- Hyperv/Calls: what the operations share: the check of ReturnValue and Job, filtered listings.
-- Hyperv/Job: hyperv/job.go. Hyperv/Vm: hyperv/vm.go and vm_state.go. Hyperv/Resources:
--   hyperv/resource_settings.go and vm_resources.go. Hyperv/Storage: hyperv/storage.go.
--   Hyperv/Machines: hyperv/client.go and host_filter.go. Hyperv/Checkpoint: hyperv/checkpoint.go.
--   Hyperv/Network: hyperv/network.go. Hyperv/Switch: hyperv/switch.go. Hyperv/Integration:
--   hyperv/integration.go. Hyperv/Vhd: hyperv/vhd.go. Hyperv/Listings: hyperv/firmware.go, gpu.go
--   and guest_network.go.
-- Tests: runs of the models and the theorems at concrete inputs.
--
-- How state is modelled. An operation of hyperv is a function from the requests made so far to a
-- result and the requests made in all, the last one first. A host is a function from that history
-- and a request to a reply, so it may answer the same request differently each time; the context of
-- a call and the ticker of a poll are asked in the same way. A network (Wsman/Transport) and a
-- server (Wsman/Enumeration) are such functions too. A struct is the list of its tagged fields, and
-- a map is an association list; where Go iterates over a map, the code sorts the keys, or treats
-- every key by itself.
--
-- Bounds. The retry delay is a signed number of 64 bits, and a negative one is no delay; the theorems
-- on it ask that the delays fit. The pull loop has the code's own limit of 1000 rounds. The loop of
-- WaitForJobEPR has no limit but its context: the model takes fuel, and fuel that exceeds the ticks
-- before the deadline is enough.
--
-- The numbers of placeholders have no limit; different addresses have different ones up to the 762
-- that the documentation ranges hold.
--
-- Not modelled: the text of most error messages; encoding/xml, net/http, net/url, crypto/tls,
-- crypto/sha256, go-ntlmssp and google/uuid, which are parameters (tokens, exchanges, what a file or
-- an endpoint is parsed to, digests, `is_uuid`, what becomes of texts between the encoder and the
-- decoder) or, for the tags of structs, written out as names and namespaces; the bodies of the
-- Enumerate and Pull requests; the locks of the recorder, which records one response at a time;
-- letters without case outside ASCII; negative counts of retries and of failed polls, and negative
-- sizes of a pool; that the slots of a pool share the HTTP client of a caller.
pub mod Common
pub mod Wsman
pub mod Hyperv
mod Tests
