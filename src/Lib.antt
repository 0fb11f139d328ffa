-- ===== src/Lib.antt =====
-- Verification of x402-base-evidence: a reference that produces payment evidence for an x402
-- resource on Base, and observes the settlement on chain.
--
-- The program's parts, and the files that model them (paths from the repository's root):
--   Json, Common: the values that JSON.parse makes, texts as code units, decimal and hex text.
--   StrictJson: src/strict-json.ts, the duplicate-member scanner and parseStrictJson. A scan is a
--     function of the text that is left, with fuel; Scanner is the code, Fuel is about its fuel_for,
--     three units for each unit of text and two more, enough since every call leaves less text.
--     Admission is parseStrictJson.
--   Components: src/components.ts. Authority is canonicalAuthority; the parent module has the
--     assertion, the capture and componentsFromAbsoluteUri, on JSON values, since the code checks
--     the types of what plain JavaScript passes.
--   Binding: src/binding.ts, the two builders; Headers has the checks and the order of the selected
--     headers.
--   FailureVocabulary: src/flow/failure-vocabulary.ts, persistableFailureReason.
--   Lifecycle: src/flow/lifecycle.ts, LifecycleRecorder and its observation; the recorder is a record,
--     each method a function on it.
--   Presence: src/flow/presence.ts, checkPresence and the contracts it reads.
--   Idempotency: src/flow/server.ts, the store of payment identifiers: one pass of a request over it
--     (the loop before the payment middleware) and the conclusion of an operation. The Map is an
--     association list, and a pending entry carries the number of its request for its identity.
--   PaidResource: src/flow/server.ts, the hooks, the listeners for finish and close, and the front of
--     the middleware. Runs has any number of requests in any interleaving as a step relation; its flag
--     `late` says whether the x402 middleware goes on with a request whose operation was concluded. A
--     settlement is one step with the hook that reports it, once at most for a request, which is
--     what is assumed of the x402 middleware.
--   Rpc: src/flow/evm-json-rpc.ts, jsonRpcRequest and the shapes of its values. The result of fetch
--     and of the parser of the body are arguments.
--   SealedObservation: src/flow/observe-transaction.ts, observeSealedTransaction over a source that is
--     a record of answers; Admission has the admission of receipts, transactions and blocks, and the
--     source that an endpoint backs.
--   Settlement: src/flow/observe-settlement.ts, the chain observation document and its comparison;
--     it reads the observation of Lifecycle and the account of SealedObservation.
--   LiveObservation: src/flow/live-e2e.ts, observeUntilSealed. The clock is the sequence of its
--     readings; the turns are counted by fuel, one more than the quotient of the deadline by the pause.
--     The loop of the source has no such bound: the two agree for a clock that advances by the pause
--     between two turns (Deadline), and for any other clock the model may end with `none`.
--   FixtureFacilitator: src/flow/fixture-facilitator.ts, the facilitator of offline runs; what stands
--     behind the barrier of a settlement is one step, since nothing is awaited there.
--   Digest: src/digest.ts.
--   VerifyEvidence: src/flow/verify-evidence.ts, verifyEvidence and the arguments of its command. The
--     report is a list of named checks and warnings without their detail texts; `none` stands for an
--     exception that leaves the function. The early returns are the chain of functions verify_bytes,
--     verify_text and so on to conclude_attributed; Checks, Reads, Digests, Comparison, Agreement,
--     Native, Record and Stages have the groups of checks in the order of the source. Directory is
--     what its reads give, and Services is what it calls in other files and libraries.
--   Tests: concrete inputs for the theorems.
--
-- How they interact: the hooks of PaidResource write into the recorder of Lifecycle, whose observation
-- decides how Idempotency concludes an operation, and which artifacts Presence asks for. Settlement
-- makes a document of that observation and of the account that SealedObservation gives through Rpc;
-- LiveObservation repeats that observation until it is definitive. Binding admits components by the
-- assertion of Components. VerifyEvidence reads what all of them leave behind: it admits documents by
-- StrictJson, asks Presence for the artifacts of the recorded terminal state, repeats the comparison
-- of Settlement on untyped documents, and splits the resource's URI by Components.
--
-- Not modelled: the other source files (x402 header artifacts, independent canonicalization, safe
-- reading, preflight, keys, record issuance), file and network access, sentences meant for a reader
-- such as `statement` and the details of checks, and the libraries the sources call: the x402
-- server, the PEAC digest, the platform's parser, decoder, hash and toLowerCase stand as
-- parameters. A number that JSON.parse gives is an integer or an unspecified fraction. toLowerCase
-- is modelled on ASCII letters where one side of a comparison is hexadecimal text, onto which it
-- maps no other character, in a host, which is ASCII, in a scheme, which is compared with `http` and
-- `https`, and in the comparison of the addresses of a document by VerifyEvidence, where nothing confines the two sides to ASCII: there
-- the model is exact only for texts whose letters outside of ASCII have no lower case of their own.
-- In the authorization of a request, and in the identity by which the fixture facilitator knows one,
-- it is a parameter.
pub mod Binding
pub mod Common
pub mod Json
pub mod StrictJson
pub mod FailureVocabulary
pub mod Lifecycle
pub mod Presence
pub mod Idempotency
pub mod PaidResource
pub mod Rpc
pub mod Components
pub mod Digest
pub mod SealedObservation
pub mod Settlement
pub mod FixtureFacilitator
pub mod LiveObservation
pub mod Tests
pub mod VerifyEvidence
